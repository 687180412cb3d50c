-- ===== src/World/Tables.antt =====
-- The tables of internal/storage/migrations/001_init.up.sql, each by its primary key. The columns
-- that no query reads (`skills.created_at`, `agent_tokens.created_at`) are left out.
use hermes_manager.Prelude.{String, Bool, List}
use hermes_manager.Storage.{Skill, Task, Event}

pub record AgentToken : Type 0 where
  pub token_hash : String
  pub revoked : Bool

pub record Db : Type 0 where
  pub skills : List (String × Skill)
  pub tasks : List (String × Task)
  pub events : List (String × Event)
  pub tokens : List (String × AgentToken)
