-- ===== src/Examples/Serving.antt =====
-- The start of the program, its routes and its pool on small inputs.
use hermes_manager.Prelude.{
  lookup, ℕ, Bool, true, zero, suc, String, ◌≡◌, refl, ◌⊎◌, inl, inr, false, Option, some, List, [],
  ◌∷◌, ok, err, pure, error, get_elem?, ◌==◌, ◌&&◌, if◌then◌else◌, Bool-cases, eq_iff, arith,
}
use hermes_manager.Storage.{running, ℤ, pos}
use hermes_manager.World.{World}
use hermes_manager.Policy.{rules_of}
use hermes_manager.Postgres.{ping}
use hermes_manager.Postgres.Pool.{Pgx, wrapped, env_int, pool_settings}
use hermes_manager.Postgres.Pool as Pool
use hermes_manager.Postgres.Pool.Bounds.{IsBounded, pool_settings-IsBounded}
use hermes_manager.Runtime.{Runtime, Factory}
use hermes_manager.Runtime.Drivers.Local.{local_runtime}
use hermes_manager.Api.Response.{write_error}
use hermes_manager.Api.Auth.{Request, Handler}
use hermes_manager.Api.TaskService.Steps.{server}
use hermes_manager.Api.TaskService.Success.{scheduler_of}
use hermes_manager.Api.Routes.{Route, Http, handler}
use hermes_manager.Api.Routes.Outcome.{IsMux, Serves}
use hermes_manager.Api.Routes.Safe.{handler-safe}
use hermes_manager.Api.Routes.Kept.{run_requests, run_requests-IsFrozen}
use hermes_manager.Api.TaskService.Frozen.{IsFrozen}
use hermes_manager.Main.{Environment}
use hermes_manager.Examples.Data.{
  library_functions, machine, task_of, world_of, busy_db, local_only, deny_guests,
}
use hermes_manager.Examples.Requests.{rules, request_of, local_only-AllKeepTables}
use hermes_manager.Examples.Loading.{skill_files}

-- Whether a route's method serves that of the request, as the source's `http.ServeMux` tests it.
serves_method : String → String → Bool
serves_method method asked =
    if method == asked then true else (method == "GET") && (asked == "HEAD")

-- The first route whose method serves the request's and whose pattern is its path.
exact_mux : List Route → Handler
exact_mux [] req w = (write_error 404 (error "404 page not found"), w)
exact_mux (r ∷ rs) req w =
    let rest = exact_mux rs req w in
    if serves_method r.method req.method && (r.pattern == req.path) then r.handler req w else rest

serves_method-Serves :
    (r : Route) (req : Request) → serves_method r.method req.method ≡ true → Serves r req
unfolding serves_method
serves_method-Serves r req h = elim (Bool-cases (r.method == req.method)) [
  | inl same ↦ inl ((eq_iff r.method req.method).0 same)
  | inr other ↦
      inr ((eq_iff r.method "GET").0 (ground arith), (eq_iff req.method "HEAD").0 (ground arith))
]

exact_mux-served :
    (rs : List Route) (req : Request) (w : World)
    → ((exact_mux rs req w).1 ≡ w)
      ⊎ ((n : ℕ) × (r : Route) × (get_elem? rs n ≡ some r)
          × Serves r req
          × (exact_mux rs req w ≡ r.handler req w))
unfolding exact_mux
exact_mux-served [] req w = inl refl
exact_mux-served (r ∷ rs) req w =
    elim (Bool-cases (serves_method r.method req.method && (r.pattern == req.path))) [
      | inl matched ↦
          inr (zero, r, refl, serves_method-Serves r req (ground arith), rw (matched) refl)
      | inr other ↦ elim (exact_mux-served rs req w) [
        | inl same ↦ inl (rw (other) same)
        | inr (n, s, there, method, ran) ↦ inr (suc n, s, there, method, rw (other) ran)
      ]
    ]

exact_mux-IsMux : IsMux exact_mux
exact_mux-IsMux = record { served = exact_mux-served }

abbrev small_http : Http
small_http = record {
  mux = exact_mux;
  path_value = λ req name. "t1";
  query = λ req name. "";
  task_body = λ req. ok (request_of "ann");
  event_post = λ req. record { authorization = req.authorization; body = err (error "EOF") };
  pages = λ req w. (write_error 404 (error "404 page not found"), w);
}

abbrev list_request : Request
list_request = record {
  method = "HEAD";
  path = "/v1/tasks";
  authorization = "Bearer key";
  content = "";
}

handler-safe_example :
    (handler small_http library_functions
      (server library_functions (scheduler_of (some local_only)) rules)
      ping
      "key"
      list_request
      (world_of busy_db)).1.db
    ≡ busy_db
handler-safe_example =
    handler-safe small_http library_functions (scheduler_of (some local_only)) rules (λ req w. refl)
      "key" list_request (world_of busy_db) exact_mux-IsMux refl

abbrev task_post : Request
task_post = record {
  method = "POST";
  path = "/v1/tasks";
  authorization = "Bearer key";
  content = "{}";
}

-- The second task runs behind a revoked token.
t2-IsFrozen : IsFrozen "t2" (task_of "t2" 20 running) busy_db
unfolding lookup
t2-IsFrozen = (refl, (record { token_hash = "#other"; revoked = true }, refl, refl))

run_requests-IsFrozen_example :
    IsFrozen "t2"
      (task_of "t2" 20 running)
      (run_requests small_http library_functions
        (some local_only)
        rules
        "key"
        (task_post ∷ list_request ∷ [])
        (world_of busy_db)).db
run_requests-IsFrozen_example =
    run_requests-IsFrozen small_http library_functions (some local_only) rules
      local_only-AllKeepTables (λ req w. refl) "t2" (task_of "t2" 20 running) "key"
      (task_post ∷ list_request ∷ []) (world_of busy_db) exact_mux-IsMux t2-IsFrozen

-- PG_MAX_CONNS is 2 ^ 32 + 1, PG_MIN_CONNS is 7.
abbrev crowded : String → String
crowded name = if name == "PG_MAX_CONNS" then "4294967297" else "7"

abbrev crowded_atoi : String → Option ℤ
crowded_atoi text = if text == "7" then some (pos 7) else some (pos 4294967297)

pool_settings-IsBounded_example : IsBounded (pool_settings crowded crowded_atoi)
pool_settings-IsBounded_example = pool_settings-IsBounded crowded crowded_atoi

one_connection : (pool_settings crowded crowded_atoi).max_conns ≡ pos 1
unfolding pool_settings env_int wrapped
one_connection = refl

abbrev small_pgx : Pgx
small_pgx = record {
  Config = String;
  Pool = String;
  parse_config = λ dsn. ok dsn;
  new_with_config = λ config settings. pure config;
  ping = λ pool. pure tt;
  exec = λ pool sql. pure tt;
  close = λ pool w. w;
}

abbrev local_factory : Factory World
local_factory w = (ok (local_runtime machine), w)

abbrev production : Environment
production = record {
  getenv = λ name.
      if name == "DATABASE_URL"
      then "postgres://db"
      else if name == "HERMESMANAGER_POLICY_FILE"
      then "policy.yaml"
      else "";
  http = small_http;
  lib = library_functions;
  pgx = small_pgx;
  migration = ok "CREATE TABLE";
  files = skill_files;
  exists = λ dir. false;
  read_rules = λ path. rules_of (deny_guests ∷ []);
  registry = ("local", local_factory) ∷ [];
}
