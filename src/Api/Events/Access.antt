-- ===== src/Api/Events/Access.antt =====
-- Who may write through POST /v1/events, and what.
use hermes_manager.Prelude.{
  ℕ, String, ◌≡◌, refl, ◌∙◌, sym, ap, ◌⊎◌, inl, inr, Bool, true, false, Option, some, List, Result,
  ok, err, lookup, ◌==◌, Bool-cases, Option-cases,
}
use hermes_manager.World.{World}
use hermes_manager.Policy.{Rule}
use hermes_manager.Scheduler.{Scheduler}
use hermes_manager.Postgres
use hermes_manager.Postgres.{accepts}
use hermes_manager.Postgres.Calls.{verify_agent_token-db, verify_agent_token-eq-ok}
use hermes_manager.Api.Response.{Response}
use hermes_manager.Api.Server.{Library}
use hermes_manager.Api.Events.{
  EventPost, CreateEventRequest, bearer_token, after_verification, verified, with_body,
  handle_create_event, record_event,
}
use hermes_manager.Api.Events.Steps.{server, Reached, Reached-from, record_event-Reached}

module _ (lib : Library) where
  -- The request carries a bearer token whose hash the store holds, not revoked, for the task that
  -- the request names.
  pub record IsAuthorized (post : EventPost) (req : CreateEventRequest) (w : World) : Type 0 where
    pub token : String
    pub header : bearer_token post.authorization ≡ some token
    pub body : post.body ≡ ok req
    pub accepted : accepts (lookup req.task_id w.db.tokens) (lib.sha256 token) ≡ true

-- The statuses of a refused request.
abbrev pub IsRefusal : ℕ → Type 0
IsRefusal status = ((status ≡ 400) ⊎ (status ≡ 401)) ⊎ (status ≡ 500)

module _ (lib : Library) (sched : Option (Scheduler World)) (pol : Option (List Rule)) where
  -- The two ways in which a request ends.
  abbrev pub Ends : EventPost → World → Response × World → Type 0
  Ends post w (response, w') =
      ((w'.db ≡ w.db) × IsRefusal response.status)
      ⊎ ((req : CreateEventRequest) × IsAuthorized lib post req w × Reached lib sched pol req w w')

  module _ (post : EventPost) (w : World) where
    module _ (req : CreateEventRequest) (token : String)
        (header : bearer_token post.authorization ≡ some token) (body : post.body ≡ ok req) where
      after_verification-Ends :
          (r : Result Bool × World)
          → Postgres.verify_agent_token req.task_id (lib.sha256 token) w ≡ r
          → Ends post w (after_verification lib (server lib sched pol) req r.0 r.1)
      unfolding after_verification
      after_verification-Ends (err e, v) h =
          inl (
            ap (λ (q : Result Bool × World). q.1.db) (sym h) ∙ verify_agent_token-db w _ _,
            inr refl,
          )
      after_verification-Ends (ok false, v) h = inl (
        ap (λ (q : Result Bool × World). q.1.db) (sym h) ∙ verify_agent_token-db w _ _,
        inl (inr refl),
      )
      after_verification-Ends (ok true, v) h =
          let (answer, db, same) =
            verify_agent_token-eq-ok w v req.task_id (lib.sha256 token) true h in
          inr (
            req,
            record { token = token; header = header; body = body; accepted = sym answer },
            Reached-from lib sched pol req w v (record_event lib (server lib sched pol) req v).1 db
                same.now (record_event-Reached lib sched pol req v),
          )

    with_body-Ends :
        (token : String) (body : Result CreateEventRequest)
        → bearer_token post.authorization ≡ some token
        → post.body ≡ body
        → Ends post w (with_body lib (server lib sched pol) token body w)
    unfolding with_body verified
    with_body-Ends token (err e) header body = inl (refl, inl (inl refl))
    with_body-Ends token (ok req) header body = elim (Bool-cases (req.task_id == "")) [
      | inl empty ↦ rw empty (inl (refl, inl (inl refl)))
      | inr named ↦ rw named (after_verification-Ends req token header body _ refl)
    ]

  -- Over any network, a request to POST /v1/events either changes no table and is refused with 400,
  -- 401 or 500, or it carries the bearer token of the task that it names, stored and not revoked.
  -- Then, of the tasks, at most that task changes, to the state that the type of the event stands
  -- for; and, of the tokens, at most that task's token changes, by being revoked.
  pub handle_create_event-Ends :
      (post : EventPost) (w : World)
      → Ends post w (handle_create_event lib (server lib sched pol) post w)
  unfolding handle_create_event
  handle_create_event-Ends post w = elim (Option-cases (bearer_token post.authorization)) [
    | inl missing ↦ rw (missing, handle_create_event) (inl (refl, inl (inr refl)))
    | inr (token, header) ↦
        rw (header, handle_create_event) (with_body-Ends post w token post.body header refl)
  ]
