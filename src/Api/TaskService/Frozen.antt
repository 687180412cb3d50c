-- ===== src/Api/TaskService/Frozen.antt =====
-- A task behind a revoked token through the writing calls of the Postgres store.
use hermes_manager.Prelude.{
  ℕ, String, ◌≡◌, refl, ap, true, false, some, lookup, lookup-insert, lookup-adjust, adjust,
  is_absent, is_absent-some, Bool-cases, inl, inr, arith, eq_iff, ◌==◌,
}
use hermes_manager.Storage.{Task, TaskState, moved}
use hermes_manager.World.{World, Db}
use hermes_manager.Postgres
use hermes_manager.Postgres.{
  get_skill, insert_task, set_state, update_task_state, upsert_token, store_agent_token,
  revoke_agent_token,
}
use hermes_manager.Postgres.Statement.{statement-db}
use hermes_manager.Api.Events.Transitions.{IsClosed, MayRevoke-IsClosed}

-- The task has that row, and its token is stored and revoked.
abbrev pub IsFrozen : String → Task → Db → Type 0
IsFrozen id t db = (lookup id db.tasks ≡ some t) × IsClosed id db

module _ (id : String) (t : Task) where
  abbrev Frozen : Db → Type 0
  Frozen = IsFrozen id t

  pub insert_task-IsFrozen :
      (task : Task) (now : ℕ) (db : Db) → Frozen db → Frozen (insert_task task now db).1
  unfolding insert_task
  insert_task-IsFrozen task now db (there, (row, found, revoked)) = (
    (let absent = is_absent-some id db.tasks t there in
        ground (
          arith,
          lookup-insert task.id id (record task { updated_at = now }) db.tasks,
          eq_iff task.id id,
        )),
    (row, ground arith, revoked),
  )

  -- A name that is free is another one.
  pub other_name :
      (new : String) (db : Db) → Frozen db → is_absent new db.tasks ≡ true → (new == id) ≡ false
  other_name new db (there, closed) free = elim (Bool-cases (new == id)) [
    | inl e ↦ cc (
      ap (λ k. is_absent k db.tasks) ((eq_iff new id).0 e),
      is_absent-some id db.tasks t there,
      free,
    )
    | inr e ↦ e
  ]

  module _ (other : String) (ne : (other == id) ≡ false) where
    set_state-IsFrozen :
        (state : TaskState) (now : ℕ) (db : Db)
        → Frozen db
        → Frozen (set_state other state now db).1
    unfolding set_state
    set_state-IsFrozen state now db (there, (row, found, revoked)) = (
      ground (arith, lookup-adjust other id (moved state now) db.tasks),
      (row, ground arith, revoked),
    )

    upsert_token-IsFrozen :
        (hash : String) (now : ℕ) (db : Db) → Frozen db → Frozen (upsert_token other hash now db).1
    unfolding upsert_token
    upsert_token-IsFrozen hash now db (there, (row, found, revoked)) = (
      ground arith,
      (
        row,
        ground (
          arith,
          lookup-insert other id (record { token_hash = hash; revoked = false }) db.tokens,
        ),
        revoked,
      ),
    )

    pub update_task_state-IsFrozen :
        (state : TaskState) (w : World)
        → Frozen w.db
        → Frozen (update_task_state other state w).1.db
    unfolding update_task_state
    update_task_state-IsFrozen state w c =
        statement-db Frozen (set_state other state) w c (set_state-IsFrozen state w.now w.db c)

    pub store_agent_token-IsFrozen :
        (hash : String) (w : World) → Frozen w.db → Frozen (store_agent_token other hash w).1.db
    unfolding store_agent_token
    store_agent_token-IsFrozen hash w c =
        statement-db Frozen (upsert_token other hash) w c (upsert_token-IsFrozen hash w.now w.db c)

    pub revoke_agent_token-IsFrozen :
        (w : World) → Frozen w.db → Frozen (revoke_agent_token other w).1.db
    unfolding revoke_agent_token
    revoke_agent_token-IsFrozen w (there, closed) =
        statement-db Frozen _ w (there, closed)
          (
            there,
            MayRevoke-IsClosed id other w.db
                (record w.db {
                  tokens = adjust other (λ row. record row { revoked = true }) w.db.tokens;
                })
                (inr refl) closed,
          )

  pub create_task-IsFrozen :
      (task : Task) (w : World) → Frozen w.db → Frozen (Postgres.create_task task w).1.db
  unfolding Postgres.create_task
  create_task-IsFrozen task w c =
      statement-db Frozen (insert_task task) w c (insert_task-IsFrozen task w.now w.db c)
