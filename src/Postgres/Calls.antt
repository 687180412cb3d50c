-- ===== src/Postgres/Calls.antt =====
-- What a call of the store that returned no error has done to the tables, and what any call, failed
-- or not, may have done to them.
use hermes_manager.Prelude.{
  String, ◌≡◌, refl, ap, ◌⊎◌, inl, inr, Bool, true, false, Option, [], arith, ok, lookup, insert,
  adjust, is_absent,
}
use hermes_manager.Storage.{moved, Skill, Task, TaskState, Event}
use hermes_manager.World.{World}
use hermes_manager.Postgres.{
  get_skill, create_task, insert_task, update_task_state, set_state, append_event, insert_event,
  store_agent_token, upsert_token, verify_agent_token, revoke_agent_token, accepts, is_known_state,
  is_known_type,
}
use hermes_manager.Postgres.Statement.{
  statement, Run, statement-eq-ok, statement-db, statement_through, rest_of,
}

-- The parts of the world that a database call leaves alone.
pub record SameRest (w w' : World) : Type 0 where
  pub net : w'.net ≡ rest_of w.net
  pub random : w'.random ≡ w.random
  pub now : w'.now ≡ w.now
  pub host : w'.host ≡ w.host

ran :
    {A : Type 0} (run : Run A) (w w' : World) (a : A)
    → statement run w ≡ (ok a, w')
    → (run w.now w.db ≡ (ok a, w'.db)) × SameRest w w'
ran run w w' a h =
    let (done, net, random, now, host) = statement-eq-ok run w w' a h in
    (done, record { net = net; random = random; now = now; host = host })

module _ (w w' : World) where
  pub get_skill-eq-ok :
      (name : String) (found : Option Skill)
      → get_skill name w ≡ (ok found, w')
      → (found ≡ lookup name w.db.skills) × (w'.db ≡ w.db) × SameRest w w'
  unfolding get_skill
  get_skill-eq-ok name found h =
      let (done, same) = ran _ w w' found h in (ground arith, ground arith, same)

  pub create_task-eq-ok :
      (t : Task)
      → create_task t w ≡ (ok tt, w')
      → (is_absent t.id w.db.tasks ≡ true)
        × (is_absent t.skill_name w.db.skills ≡ false)
        × (is_known_state t.state ≡ true)
        × (w'.db ≡ record w.db { tasks = insert t.id (record t { updated_at = w.now }) w.db.tasks })
        × SameRest w w'
  unfolding create_task insert_task
  create_task-eq-ok t h =
      let (done, same) = ran (insert_task t) w w' tt h in
      (ground arith, ground arith, ground arith, ground arith, same)

  pub update_task_state-eq-ok :
      (id : String) (state : TaskState)
      → update_task_state id state w ≡ (ok tt, w')
      → (is_absent id w.db.tasks ≡ false)
        × (is_known_state state ≡ true)
        × (w'.db ≡ record w.db {
          tasks = adjust id (λ t. record t { state = state; updated_at = w.now }) w.db.tasks;
        })
        × SameRest w w'
  unfolding update_task_state set_state
  update_task_state-eq-ok id state h =
      let (done, same) = ran (set_state id state) w w' tt h in
      (ground arith, ground arith, ground arith, same)

  pub append_event-eq-ok :
      (e : Event)
      → append_event e w ≡ (ok tt, w')
      → (is_absent e.id w.db.events ≡ true)
        × (is_absent e.task_id w.db.tasks ≡ false)
        × (is_known_type e.type ≡ true)
        × (w'.db ≡ record w.db { events = insert e.id e w.db.events })
        × SameRest w w'
  unfolding append_event insert_event
  append_event-eq-ok e h =
      let (done, same) = ran (insert_event e) w w' tt h in
      (ground arith, ground arith, ground arith, ground arith, same)

  pub store_agent_token-eq-ok :
      (task_id hash : String)
      → store_agent_token task_id hash w ≡ (ok tt, w')
      → (w'.db ≡ record w.db {
        tokens = insert task_id (record { token_hash = hash; revoked = false }) w.db.tokens;
      })
        × SameRest w w'
  unfolding store_agent_token upsert_token
  store_agent_token-eq-ok task_id hash h =
      let (done, same) = ran (upsert_token task_id hash) w w' tt h in (ground arith, same)

  pub verify_agent_token-eq-ok :
      (task_id presented : String) (valid : Bool)
      → verify_agent_token task_id presented w ≡ (ok valid, w')
      → (valid ≡ accepts (lookup task_id w.db.tokens) presented) × (w'.db ≡ w.db) × SameRest w w'
  unfolding verify_agent_token
  verify_agent_token-eq-ok task_id presented valid h =
      let (done, same) = ran _ w w' valid h in (ground arith, ground arith, same)

  pub revoke_agent_token-eq-ok :
      (task_id : String)
      → revoke_agent_token task_id w ≡ (ok tt, w')
      → (w'.db ≡ record w.db {
        tokens = adjust task_id (λ row. record row { revoked = true }) w.db.tokens;
      })
        × SameRest w w'
  unfolding revoke_agent_token
  revoke_agent_token-eq-ok task_id h = let (done, same) = ran _ w w' tt h in (ground arith, same)

-- What a call leaves alone, whether it returns an error or not.
module _ (w : World) where
  pub update_task_state-tasks :
      (id : String) (state : TaskState)
      → ((update_task_state id state w).1.db.tasks ≡ w.db.tasks)
        ⊎ ((update_task_state id state w).1.db.tasks
            ≡ adjust id (λ t. record t { state = state; updated_at = w.now }) w.db.tasks)
  unfolding update_task_state set_state
  update_task_state-tasks id state =
      statement-db
        (λ db.
          (db.tasks ≡ w.db.tasks)
          ⊎ (db.tasks ≡ adjust id (λ t. record t { state = state; updated_at = w.now }) w.db.tasks))
        _ w (inl refl) (ground arith)

  pub update_task_state-tokens :
      (id : String) (state : TaskState) → (update_task_state id state w).1.db.tokens ≡ w.db.tokens
  unfolding update_task_state set_state
  update_task_state-tokens id state =
      statement-db (λ db. db.tokens ≡ w.db.tokens) _ w refl (ground arith)

  pub update_task_state-now :
      (id : String) (state : TaskState) → (update_task_state id state w).1.now ≡ w.now
  unfolding update_task_state statement
  update_task_state-now id state = refl

  pub append_event-tasks : (e : Event) → (append_event e w).1.db.tasks ≡ w.db.tasks
  unfolding append_event insert_event
  append_event-tasks e = statement-db (λ db. db.tasks ≡ w.db.tasks) _ w refl (ground arith)

  pub append_event-tokens : (e : Event) → (append_event e w).1.db.tokens ≡ w.db.tokens
  unfolding append_event insert_event
  append_event-tokens e = statement-db (λ db. db.tokens ≡ w.db.tokens) _ w refl (ground arith)

  pub append_event-now : (e : Event) → (append_event e w).1.now ≡ w.now
  unfolding append_event statement
  append_event-now e = refl

  pub revoke_agent_token-tasks : (id : String) → (revoke_agent_token id w).1.db.tasks ≡ w.db.tasks
  unfolding revoke_agent_token
  revoke_agent_token-tasks id = statement-db (λ db. db.tasks ≡ w.db.tasks) _ w refl refl

  pub revoke_agent_token-events :
      (id : String) → (revoke_agent_token id w).1.db.events ≡ w.db.events
  unfolding revoke_agent_token
  revoke_agent_token-events id = statement-db (λ db. db.events ≡ w.db.events) _ w refl refl

  pub revoke_agent_token-tokens :
      (id : String)
      → ((revoke_agent_token id w).1.db.tokens ≡ w.db.tokens)
        ⊎ ((revoke_agent_token id w).1.db.tokens
            ≡ adjust id (λ row. record row { revoked = true }) w.db.tokens)
  unfolding revoke_agent_token
  revoke_agent_token-tokens id =
      statement-db
        (λ db.
          (db.tokens ≡ w.db.tokens)
          ⊎ (db.tokens ≡ adjust id (λ row. record row { revoked = true }) w.db.tokens))
        _ w (inl refl) (inr refl)

  pub verify_agent_token-db :
      (id presented : String) → (verify_agent_token id presented w).1.db ≡ w.db
  unfolding verify_agent_token
  verify_agent_token-db id presented = statement-db (λ db. db ≡ w.db) _ w refl refl

pub update_task_state-net :
    (id : String) (state : TaskState) (w : World)
    → w.net ≡ []
    → (update_task_state id state w).1.net ≡ []
unfolding update_task_state statement
update_task_state-net id state w quiet = ap rest_of quiet

-- Over a network that fails nothing, a task that is there goes to a known state.
pub update_task_state_quiet :
    (id : String) (state : TaskState) (w : World)
    → w.net ≡ []
    → is_absent id w.db.tasks ≡ false
    → is_known_state state ≡ true
    → (update_task_state id state w).1
      ≡ record w { db = record w.db { tasks = adjust id (moved state w.now) w.db.tasks } }
unfolding update_task_state set_state
update_task_state_quiet id state w quiet there known =
    rw (statement_through _ w quiet) (rw (there, known) refl)

-- Over a network that fails nothing, a revocation is done.
pub revoke_agent_token-tokens_quiet :
    (id : String) (w : World)
    → w.net ≡ []
    → (revoke_agent_token id w).1.db.tokens
      ≡ adjust id (λ row. record row { revoked = true }) w.db.tokens
unfolding revoke_agent_token
revoke_agent_token-tokens_quiet id w quiet = rw (statement_through _ w quiet) refl
