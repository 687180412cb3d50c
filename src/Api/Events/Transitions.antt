-- ===== src/Api/Events/Transitions.antt =====
-- Sequences of requests to POST /v1/events, and the tasks behind a revoked token.
use hermes_manager.Prelude.{
  ℕ, String, ◌≡◌, refl, ◌∙◌, sym, ap, subst, inl, inr, true, false, Option, some, List, [], ◌∷◌,
  arith, lookup, lookup-adjust, eq_iff, ◌==◌, Bool-cases,
}
use hermes_manager.Storage.{moved, Task}
use hermes_manager.World.{World, Db, AgentToken}
use hermes_manager.Policy.{Rule}
use hermes_manager.Scheduler.{Scheduler}
use hermes_manager.Postgres.{accepts}
use hermes_manager.Api.Server.{Library}
use hermes_manager.Api.Events.{EventPost, handle_create_event}
use hermes_manager.Api.Events.Steps.{server, MayMove, MayRevoke}
use hermes_manager.Api.Events.Access.{Ends, handle_create_event-Ends}

-- The token of the task is stored and revoked.
abbrev pub IsClosed : String → Db → Type 0
IsClosed id db = (row : AgentToken) × (lookup id db.tokens ≡ some row) × (row.revoked ≡ true)

closed_refuses :
    (id hash : String) (db : Db) → IsClosed id db → accepts (lookup id db.tokens) hash ≡ false
unfolding accepts
closed_refuses id hash db (row, found, revoked) = rw found (rw revoked refl)

pub MayRevoke-IsClosed :
    (id other : String) (before after : Db)
    → MayRevoke other before.tokens after.tokens
    → IsClosed id before
    → IsClosed id after
MayRevoke-IsClosed id other before after (inl same) (row, found, revoked) =
    (row, ap (lookup id) same ∙ found, revoked)
MayRevoke-IsClosed id other before after (inr gone) (row, found, revoked) =
    let f = λ (r : AgentToken). record r { revoked = true } in
    elim (Bool-cases (other == id)) [
      | inl e ↦ (
        f row,
        ap (lookup id) gone ∙ ground (arith, lookup-adjust other id f before.tokens),
        refl,
      )
      | inr e ↦ (
        row,
        ap (lookup id) gone ∙ ground (arith, lookup-adjust other id f before.tokens),
        revoked,
      )
    ]

MayMove-other :
    (effect : _) (id other : String) (now : ℕ) (before after : List (String × Task))
    → (other == id) ≡ false
    → MayMove effect other now before after
    → lookup id after ≡ lookup id before
MayMove-other effect id other now before after ne (inl same) = ap (lookup id) same
MayMove-other effect id other now before after ne (inr (state, _, went)) =
    ap (lookup id) went ∙ ground (arith, lookup-adjust other id (moved state now) before)

module _ (lib : Library) (sched : Option (Scheduler World)) (pol : Option (List Rule)) where
  pub Ends-IsClosed :
      (id : String) (post : EventPost) (w : World) (r : _)
      → Ends lib sched pol post w r
      → IsClosed id w.db
      → (lookup id r.1.db.tasks ≡ lookup id w.db.tasks) × IsClosed id r.1.db
  Ends-IsClosed id post w r (inl (same, _)) c =
      (ap (λ (d : Db). lookup id d.tasks) same, subst (IsClosed id) (sym same) c)
  Ends-IsClosed id post w r (inr (req, auth, (tasks, tokens))) c = (
    elim (Bool-cases (req.task_id == id)) [
      | inl e ↦ cc (
        auth.accepted,
        ap (λ k. accepts (lookup k w.db.tokens) (lib.sha256 auth.token)) ((eq_iff _ _).0 e),
        closed_refuses id (lib.sha256 auth.token) w.db c,
      )
      | inr ne ↦ MayMove-other _ id req.task_id w.now w.db.tasks r.1.db.tasks ne tasks
    ],
    MayRevoke-IsClosed id req.task_id w.db r.1.db tokens c,
  )

  -- The world after a sequence of requests.
  unfoldable pub run_posts : List EventPost → World → World
  run_posts [] w = w
  run_posts (post ∷ posts) w =
      run_posts posts (handle_create_event lib (server lib sched pol) post w).1

  -- Once a task's token is revoked, no sequence of requests to POST /v1/events, over any network,
  -- changes the task's row or makes the token valid again.
  pub run_posts-IsClosed :
      (id : String) (posts : List EventPost) (w : World)
      → IsClosed id w.db
      → (lookup id (run_posts posts w).db.tasks ≡ lookup id w.db.tasks)
        × IsClosed id (run_posts posts w).db
  unfolding run_posts
  run_posts-IsClosed id [] w c = (refl, c)
  run_posts-IsClosed id (post ∷ posts) w c =
      let w' = (handle_create_event lib (server lib sched pol) post w).1 in
      let (same, c') =
        Ends-IsClosed id post w (handle_create_event lib (server lib sched pol) post w)
          (handle_create_event-Ends lib sched pol post w) c in
      let (later, done) = run_posts-IsClosed id posts w' c' in (later ∙ same, done)
