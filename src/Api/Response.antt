-- ===== src/Api/Response.antt =====
-- What a handler writes: a status and a body. A body is kept as the value that is encoded.
use hermes_manager.Prelude.{ℕ, String, List, Error}
use hermes_manager.Storage.{Skill, Task, Event}

pub data Body : Type 0 where
  -- `{"error": ...}`, by the error or the format that is written
  problem : Error → Body
  skill : Skill → Body
  skills : List Skill → Body
  task : Task → Body
  tasks : List Task → Body
  events : List Event → Body
  -- The answer of POST /v1/tasks: task id, token, and runtime and external id where there is one.
  task_created : String → String → Body
  task_dispatched : String → String → String → String → Body
  -- The answer of a probe, by its fields.
  probe : List (String × String) → Body
  -- `{"id": ...}`
  event_created : String → Body

pub record Response : Type 0 where
  pub status : ℕ
  pub body : Body

-- `writeJSON` and `writeError`.
abbrev pub write_json : ℕ → Body → Response
write_json status body = record { status = status; body = body }

abbrev pub write_error : ℕ → Error → Response
write_error status e = record { status = status; body = problem e }
