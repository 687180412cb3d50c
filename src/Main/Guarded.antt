-- ===== src/Main/Guarded.antt =====
-- cmd/hermesmanager/main.go: the policy of a program that has started.
use hermes_manager.World.{World}
use hermes_manager.Postgres.Pool as Pool
use hermes_manager.Runtime.{Runtime}
