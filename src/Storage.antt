-- ===== src/Storage.antt =====
-- internal/storage/store.go: the domain types and the `Store` interface.
-- `TaskState` and `EventType` are Go strings: a constructor for each constant, and `other` for any
-- other text. JSON objects (`map[string]any`) are their texts, a nil
-- map the text "null". Times are counted from the epoch;
-- Go's `int` is the type ℤ below.
mod Int
pub use Int.*
use Prim.Native.String.{[] as empty_text}
use hermes_manager.Prelude.{ℕ, String, Bool, Option, none, some, List, Exec, ◌==◌, if◌then◌else◌}

pub record Param : Type 0 where
  pub name : String
  pub type : String
  pub required : Bool
  pub description : String

-- A Go slice: `none` is nil, which pgx sends as NULL.
abbrev pub Slice : Type 0 → Type 0
Slice A = Option (List A)

pub record Skill : Type 0 where
  pub name : String
  pub version : String
  pub description : String
  pub entrypoint : String
  pub parameters : Slice Param
  pub required_tools : Slice String
  pub required_models : Slice String
  pub source_file : String
  pub loaded_at : ℕ

pub data TaskState : Type 0 where
  pending running completed failed timeout : TaskState
  other : String → TaskState

abbrev pub task_state_text : TaskState → String
task_state_text pending = "pending"
task_state_text running = "running"
task_state_text completed = "completed"
task_state_text failed = "failed"
task_state_text timeout = "timeout"
task_state_text (other s) = s

-- `storage.TaskState(v)`
abbrev pub task_state_of : String → TaskState
task_state_of s =
    if s == "pending"
    then pending
    else if s == "running"
    then running
    else if s == "completed"
    then completed
    else if s == "failed"
    then failed
    else if s == "timeout"
    then timeout
    else other s

pub record PolicyContext : Type 0 where
  pub user : String
  pub team : String
  pub model_allowed : Slice String

pub record Task : Type 0 where
  pub id : String
  pub skill_name : String
  pub parameters : String
  pub policy_context : PolicyContext
  pub runtime : String
  pub state : TaskState
  pub created_at : ℕ
  pub updated_at : ℕ
  pub deadline_secs : ℤ

-- A task that an update has moved to a state at an instant.
abbrev pub moved : TaskState → ℕ → Task → Task
moved state now t = record t { state = state; updated_at = now }

pub record TaskFilter : Type 0 where
  pub state : Option TaskState
  pub limit : ℤ
  pub offset : ℤ

pub data EventType : Type 0 where
  task_started task_llm_call task_tool_call task_policy_blocked : EventType
  task_completed task_failed task_timeout : EventType
  other : String → EventType

abbrev pub event_type_text : EventType → String
event_type_text task_started = "task.started"
event_type_text task_llm_call = "task.llm_call"
event_type_text task_tool_call = "task.tool_call"
event_type_text task_policy_blocked = "task.policy_blocked"
event_type_text task_completed = "task.completed"
event_type_text task_failed = "task.failed"
event_type_text task_timeout = "task.timeout"
event_type_text (EventType.other s) = s

-- `storage.EventType(v)`
abbrev pub event_type_of : String → EventType
event_type_of s =
    if s == "task.started"
    then task_started
    else if s == "task.llm_call"
    then task_llm_call
    else if s == "task.tool_call"
    then task_tool_call
    else if s == "task.policy_blocked"
    then task_policy_blocked
    else if s == "task.completed"
    then task_completed
    else if s == "task.failed"
    then task_failed
    else if s == "task.timeout"
    then task_timeout
    else EventType.other s

pub record Event : Type 0 where
  pub id : String
  pub task_id : String
  pub type : EventType
  pub payload : String
  pub created_at : ℕ

pub record EventFilter : Type 0 where
  pub task_id : Option String
  pub event_type : Option EventType
  pub since : Option ℕ
  pub limit : ℤ
  pub offset : ℤ

-- The interface, over the state `W` that its calls read and change. `Ping`, `Migrate` and `Close`
-- concern the connection and are left out.
pub record Store (W : Type 0) : Type 0 where
  pub upsert_skill : Skill → Exec W Unit
  pub get_skill : String → Exec W (Option Skill)
  pub list_skills : Exec W (List Skill)
  pub create_task : Task → Exec W Unit
  pub get_task : String → Exec W (Option Task)
  pub list_tasks : TaskFilter → Exec W (List Task)
  pub update_task_state : String → TaskState → Exec W Unit
  pub append_event : Event → Exec W Unit
  pub list_events : EventFilter → Exec W (List Event)
  pub store_agent_token : String → String → Exec W Unit
  pub verify_agent_token : String → String → Exec W Bool
  pub revoke_agent_token : String → Exec W Unit
