-- ===== src/Main.antt =====
-- cmd/hermesmanager/main.go: how `main` puts the program together, up to the handler that it serves.
-- `log.Fatal` is the error that it logs. The flags, the logger, and the serving and the shutdown of
-- the HTTP server are left out.
pub mod Guarded
use hermes_manager.Prelude.{
  String, Option, none, some, List, Result, ok, err, Exec, pure, lift, ◌>>=◌, ◌>>◌, ◌==◌, Bool,
  if◌then◌else◌,
}
use hermes_manager.Storage.{ℤ}
use hermes_manager.World.{World}
use hermes_manager.Policy.{Rule, Engine, PolicyFile, new_engine}
use hermes_manager.Postgres
use hermes_manager.Postgres.{ping}
use hermes_manager.Postgres.Pool.{Pgx, pool_settings, migrate}
use hermes_manager.Postgres.Pool as Pool
use hermes_manager.Runtime.{Factory, Runtime, build}
use hermes_manager.Scheduler.{new_scheduler}
use hermes_manager.Skills.{Files, load_from_dir}
use hermes_manager.Api.Server.{Library, new_server}
use hermes_manager.Api.Auth.{Handler}
use hermes_manager.Api.Routes.{Http, handler, new_router}

-- What `main` reads and calls outside of the repository's code.
pub record Environment : Type 1 where
  pub getenv : String → String
  pub http : Http
  pub lib : Library
  pub pgx : Pgx
  -- the file "001_init.up.sql" that is embedded
  pub migration : Result String
  pub files : Files
  -- `os.Stat` has no error
  pub exists : String → Bool
  pub read_rules : String → PolicyFile
  -- what the drivers' `init` functions have registered
  pub registry : List (String × Factory World)

module _ (env : Environment) where
  abbrev pub env_or : String → String → String
  env_or key fallback = if env.getenv key == "" then fallback else env.getenv key

  unfoldable pub seed_skills : Exec World Unit
  seed_skills w =
      let dir = env_or "HERMESMANAGER_SKILLS_DIR" "/etc/hermesmanager/skills" in
      if env.exists dir
      then (ok tt, (load_from_dir env.files Postgres.store dir w).1)
      else (ok tt, w)

  abbrev pub rules_of_engine : Result Engine → Result (Option (List Rule))
  rules_of_engine (ok e) = ok (some e.rules)
  rules_of_engine (err e) = err e

  unfoldable pub load_policy : String → Result (Option (List Rule))
  load_policy file =
      if file == "" then ok none else rules_of_engine (new_engine env.read_rules file)

  abbrev pub api_handler : Option (List Rule) → List (String × Runtime World) → Handler
  api_handler pol runtimes =
      handler env.http env.lib
        (new_server Postgres.store (some (new_scheduler runtimes Postgres.store)) pol) ping
        (env.getenv "HERMESMANAGER_API_TOKEN")

  unfoldable pub start_with : String → Exec World Handler
  start_with db_url = do
    pool ← Pool.new env.pgx (pool_settings env.getenv env.lib.atoi) db_url
    migrate env.pgx env.migration pool
    seed_skills
    pol ← lift (load_policy (env_or "HERMESMANAGER_POLICY_FILE" ""))
    runtimes ← build env.registry
    pure (api_handler pol runtimes)

  -- The choice between the API and the stubs.
  abbrev pub start_by : String → Exec World Handler
  start_by db_url = if db_url == "" then pure (new_router env.http) else start_with db_url

  unfoldable pub start : Exec World Handler
  start = start_by (env_or "DATABASE_URL" "")
