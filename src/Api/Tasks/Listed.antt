-- ===== src/Api/Tasks/Listed.antt =====
-- GET /v1/tasks over the Postgres store.
use hermes_manager.World.{World}
use hermes_manager.Scheduler.{Scheduler}
use hermes_manager.Api.Server.{Server}
