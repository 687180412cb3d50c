-- ===== src/Postgres.antt =====
-- internal/storage/postgres/store.go: the queries as functions on the tables, with the constraints
-- of internal/storage/migrations/001_init.up.sql, behind a network that may fail.
-- Of `ORDER BY created_at DESC` rows of one instant stand in the order of the scan, which is any.
pub mod Statement
pub mod Query
pub mod Calls
pub mod TokenLife
pub mod Segments
pub mod Paging
pub mod Retry
pub mod Quiet
pub mod Pool
pub mod Health
use hermes_manager.Prelude.{
  ℕ, String, Bool, true, false, Option, none, some, List, [], ◌∷◌, Error, errorf, plain, quoted,
  library, Result, ok, err, Exec, lookup, insert, adjust, is_absent, ◌==◌, if◌then◌else◌, not, ◌||◌,
}
use hermes_manager.Storage.{
  Slice, Skill, TaskState, pending, running, completed, failed, timeout, other, Task, TaskFilter,
  EventType, Event, EventFilter, Store, ℤ, pos, negsuc, fits_int32,
}
use hermes_manager.World.{World, Db, AgentToken}
use Statement.{statement}
use Query.{scanned, task_admitted, event_admitted, select_tasks, select_events, select_skills}

-- `Ping`, an empty statement.
unfoldable pub ping : Exec World Unit
ping = statement λ now db. (ok tt, db)

-- --- Skills ---

abbrev is_nil : {A : Type 0} → Slice A → Bool
is_nil none = true
is_nil (some xs) = false

-- `NOT NULL`: a nil slice or map is NULL.
unfoldable pub has_null : Skill → Bool
has_null sk = is_nil sk.parameters || is_nil sk.required_tools || is_nil sk.required_models

unfoldable pub upsert_skill : Skill → Exec World Unit
upsert_skill sk = statement λ now db.
    if has_null sk
    then (err (library "null value violates not-null constraint"), db)
    else (ok tt, record db { skills = insert sk.name sk db.skills })

-- `nil, nil` where there is no row
unfoldable pub get_skill : String → Exec World (Option Skill)
get_skill name = statement λ now db. (ok (lookup name db.skills), db)

unfoldable pub list_skills : Exec World (List Skill)
list_skills = statement λ now db. (ok (select_skills db.skills), db)

-- --- Tasks ---

-- `CHECK (state IN (...))`
unfoldable pub is_known_state : TaskState → Bool
is_known_state (other s) = false
is_known_state _ = true

unfoldable pub insert_task : Task → ℕ → Db → Result (Unit {0}) × Db
insert_task t now db =
    if t.parameters == "null"
    then (err (library "null value violates not-null constraint"), db)
    else if not (is_absent t.id db.tasks)
    then (err (library "tasks_pkey"), db)
    else if is_absent t.skill_name db.skills
    then (err (library "tasks_skill_name_fkey"), db)
    else if not (is_known_state t.state)
    then (err (library "tasks_state_check"), db)
    else if not (fits_int32 t.deadline_secs)
    then (err (library "deadline_seconds out of range"), db)
    else (ok tt, record db { tasks = insert t.id (record t { updated_at = now }) db.tasks })

unfoldable pub create_task : Task → Exec World Unit
create_task t = statement (insert_task t)

unfoldable pub get_task : String → Exec World (Option Task)
get_task id = statement λ now db. (ok (lookup id db.tasks), db)

unfoldable pub list_tasks : TaskFilter → Exec World (List Task)
list_tasks filter w =
    statement
      (λ now db. (
        if task_admitted w.admits filter
            then select_tasks filter (scanned (w.scan now) db.tasks)
            else err (library "invalid byte sequence for encoding"),
        db,
      ))
      w

abbrev pub task_not_found : String → Error
task_not_found id = errorf (plain "postgres: task " ∷ quoted id ∷ plain " not found" ∷ [])

-- `RowsAffected() == 0` is the error of a missing row.
unfoldable pub set_state : String → TaskState → ℕ → Db → Result (Unit {0}) × Db
set_state id state now db =
    if is_absent id db.tasks
    then (err (task_not_found id), db)
    else if not (is_known_state state)
    then (err (library "tasks_state_check"), db)
    else (
      ok tt,
      record db { tasks = adjust id (λ t. record t { state = state; updated_at = now }) db.tasks },
    )

unfoldable pub update_task_state : String → TaskState → Exec World Unit
update_task_state id state = statement (set_state id state)

-- --- Events ---

-- `CHECK (type IN (...))`
unfoldable pub is_known_type : EventType → Bool
is_known_type (EventType.other s) = false
is_known_type _ = true

unfoldable pub insert_event : Event → ℕ → Db → Result (Unit {0}) × Db
insert_event e now db =
    if e.payload == "null"
    then (err (library "null value violates not-null constraint"), db)
    else if not (is_absent e.id db.events)
    then (err (library "events_pkey"), db)
    else if is_absent e.task_id db.tasks
    then (err (library "events_task_id_fkey"), db)
    else if not (is_known_type e.type)
    then (err (library "events_type_check"), db)
    else (ok tt, record db { events = insert e.id e db.events })

unfoldable pub append_event : Event → Exec World Unit
append_event e = statement (insert_event e)

unfoldable pub list_events : EventFilter → Exec World (List Event)
list_events filter w =
    statement
      (λ now db. (
        if event_admitted w.admits filter
            then select_events filter (scanned (w.scan now) db.events)
            else err (library "invalid byte sequence for encoding"),
        db,
      ))
      w

-- --- Agent tokens ---

unfoldable pub upsert_token : String → String → ℕ → Db → Result (Unit {0}) × Db
upsert_token task_id token_hash now db =
    if is_absent task_id db.tasks then (err (library "agent_tokens_task_id_fkey"), db) else (
      ok tt,
      record db {
        tokens = insert task_id (record { token_hash = token_hash; revoked = false }) db.tokens;
      },
    )

unfoldable pub store_agent_token : String → String → Exec World Unit
store_agent_token task_id token_hash = statement (upsert_token task_id token_hash)

-- The row's test of a presented hash: no row, a revoked row, or the comparison.
unfoldable pub accepts : Option AgentToken → String → Bool
accepts none presented = false
accepts (some row) presented = if row.revoked then false else row.token_hash == presented

unfoldable pub verify_agent_token : String → String → Exec World Bool
verify_agent_token task_id presented =
    statement λ now db. (ok (accepts (lookup task_id db.tokens) presented), db)

unfoldable pub revoke_agent_token : String → Exec World Unit
revoke_agent_token task_id = statement λ now db.
    (ok tt, record db { tokens = adjust task_id (λ row. record row { revoked = true }) db.tokens })

-- The implementation of the interface.
abbrev pub store : Store World
store = record {
  upsert_skill = upsert_skill;
  get_skill = get_skill;
  list_skills = list_skills;
  create_task = create_task;
  get_task = get_task;
  list_tasks = list_tasks;
  update_task_state = update_task_state;
  append_event = append_event;
  list_events = list_events;
  store_agent_token = store_agent_token;
  verify_agent_token = verify_agent_token;
  revoke_agent_token = revoke_agent_token;
}
