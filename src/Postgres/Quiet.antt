-- ===== src/Postgres/Quiet.antt =====
-- The calls of the store over a network that fails nothing, where the constraints of the schema are met.
use hermes_manager.Prelude.{
  String, ◌≡◌, refl, ◌∙◌, true, false, [], ok, lookup, insert, adjust, is_absent, ◌==◌,
}
use hermes_manager.Storage.{Task, TaskState, Event, moved, fits_int32}
use hermes_manager.World.{World}
use hermes_manager.Postgres.{
  get_skill, insert_task, create_task, set_state, update_task_state, insert_event, append_event,
  upsert_token, store_agent_token, accepts, verify_agent_token, revoke_agent_token, is_known_state,
  is_known_type,
}
use hermes_manager.Postgres.Statement.{statement_through}

module _ (w : World) (quiet : w.net ≡ []) where
  pub get_skill_quiet : (name : String) → get_skill name w ≡ (ok (lookup name w.db.skills), w)
  unfolding get_skill
  get_skill_quiet name = statement_through _ w quiet

  pub create_task_quiet :
      (t : Task)
      → (t.parameters == "null") ≡ false
      → is_absent t.id w.db.tasks ≡ true
      → is_absent t.skill_name w.db.skills ≡ false
      → is_known_state t.state ≡ true
      → fits_int32 t.deadline_secs ≡ true
      → create_task t w ≡ (
        ok tt,
        record w {
          db = record w.db { tasks = insert t.id (record t { updated_at = w.now }) w.db.tasks };
        },
      )
  unfolding create_task insert_task
  create_task_quiet t given fresh skill state deadline =
      statement_through (insert_task t) w quiet
      ∙ rw (given, insert_task) (rw (fresh, skill, state, deadline) refl)

  pub update_task_state_done :
      (id : String) (state : TaskState)
      → is_absent id w.db.tasks ≡ false
      → is_known_state state ≡ true
      → update_task_state id state w ≡ (
        ok tt,
        record w { db = record w.db { tasks = adjust id (moved state w.now) w.db.tasks } },
      )
  unfolding update_task_state set_state
  update_task_state_done id state there known =
      statement_through (set_state id state) w quiet ∙ rw (there, set_state) (rw known refl)

  pub append_event_quiet :
      (e : Event)
      → (e.payload == "null") ≡ false
      → is_absent e.id w.db.events ≡ true
      → is_absent e.task_id w.db.tasks ≡ false
      → is_known_type e.type ≡ true
      → append_event e w
        ≡ (ok tt, record w { db = record w.db { events = insert e.id e w.db.events } })
  unfolding append_event insert_event
  append_event_quiet e given fresh task type =
      statement_through (insert_event e) w quiet
      ∙ rw (given, insert_event) (rw (fresh, task, type) refl)

  pub store_agent_token_quiet :
      (id hash : String)
      → is_absent id w.db.tasks ≡ false
      → store_agent_token id hash w ≡ (
        ok tt,
        record w {
          db = record w.db {
            tokens = insert id (record { token_hash = hash; revoked = false }) w.db.tokens;
          };
        },
      )
  unfolding store_agent_token upsert_token
  store_agent_token_quiet id hash task =
      statement_through (upsert_token id hash) w quiet ∙ rw (task, upsert_token) refl

  pub verify_agent_token_quiet :
      (id presented : String)
      → verify_agent_token id presented w ≡ (ok (accepts (lookup id w.db.tokens) presented), w)
  unfolding verify_agent_token
  verify_agent_token_quiet id presented = statement_through _ w quiet

  pub revoke_agent_token_quiet :
      (id : String)
      → revoke_agent_token id w ≡ (
        ok tt,
        record w {
          db = record w.db {
            tokens = adjust id (λ row. record row { revoked = true }) w.db.tokens;
          };
        },
      )
  unfolding revoke_agent_token
  revoke_agent_token_quiet id = statement_through _ w quiet
