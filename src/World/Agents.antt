-- ===== src/World/Agents.antt =====
-- The host of the agents, as internal/runtime/local sees it: the driver's count of active processes
-- and its handles, the processes that run, each with the environment it was given, and the
-- temporary directories.
use hermes_manager.Prelude.{ℕ, String, List}

pub record Process : Type 0 where
  pub pid : ℕ
  pub entrypoint : String
  pub dir : String
  pub task_id : String
  pub callback_url : String
  pub agent_token : String

pub record Host : Type 0 where
  pub active : ℕ
  pub handles : List (String × ℕ)
  pub running : List Process
  pub dirs : List String
