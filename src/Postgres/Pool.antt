-- ===== src/Postgres/Pool.antt =====
-- internal/storage/postgres/store.go: `New` with the settings of the pool, `Ping`, `Migrate`, and the
-- notifications. pgx is a parameter.
pub mod Bounds
use hermes_manager.Prelude.{
  ℕ, suc, ◌+◌, ◌-◌, ◌*◌, ◌%◌, ◌^◌, ◌≤◌, ◌<◌, String, Option, none, some, Result, ok, err, Exec,
  Error, wrap, lift, on_error, ◌>>=◌, ◌==◌, ltb, if◌then◌else◌, ◌≡◌, refl, Bool, true, false, not,
  Bool-cases, inl, inr, arith,
}
use hermes_manager.Storage.{ℤ, pos, negsuc, is_positive, is_natural}
use hermes_manager.World.{World}

-- An integer reduced to two's complement with `half` the number of its values: 2 ^ 31 for int32.
abbrev pub signed : ℕ → ℕ → ℤ
signed half n = if ltb n half then pos n else negsuc (half + half - 1 - n)

unfoldable pub wrapped : ℕ → ℤ → ℤ
wrapped half (pos n) = signed half (n % (half + half))
wrapped half (negsuc n) = signed half (half + half - 1 - n % (half + half))

abbrev pub to_int32 : ℤ → ℤ
to_int32 = wrapped (2 ^ 31)

-- A number of units as a `time.Duration`, an int64.
abbrev pub times : ℤ → ℕ → ℤ
times (pos n) k = pos (n * k)
times (negsuc n) k = negsuc ((n + 1) * k - 1)

abbrev pub duration : ℤ → ℕ → ℤ
duration n unit = wrapped (2 ^ 63) (times n unit)

-- `a > b`
abbrev pub greater : ℤ → ℤ → Bool
greater (pos a) (pos b) = ltb b a
greater (pos a) (negsuc b) = true
greater (negsuc a) (pos b) = false
greater (negsuc a) (negsuc b) = ltb a b

-- What the pool's configuration is set to; the durations are in nanoseconds.
pub record PoolSettings : Type 0 where
  pub max_conns : ℤ
  pub min_conns : ℤ
  pub max_conn_lifetime : ℤ
  pub health_check_period : ℤ

abbrev pub number_or : ℤ → Option ℤ → ℤ
number_or fallback none = fallback
number_or fallback (some n) = n

-- The three tests on the numbers of connections.
abbrev pub at_least_one : ℤ → ℤ
at_least_one n = if is_positive n then n else pos 10

abbrev pub not_negative : ℤ → ℤ
not_negative n = if is_natural n then n else pos 2

abbrev pub capped : ℤ → ℤ → ℤ
capped min max = if greater min max then max else min

-- `os.Getenv` and `strconv.Atoi`, `none` for its error.
module _ (getenv : String → String) (atoi : String → Option ℤ) where
  unfoldable pub env_int : String → ℤ → ℤ
  env_int key fallback =
      if getenv key == "" then fallback else number_or fallback (atoi (getenv key))

  unfoldable pub pool_settings : PoolSettings
  pool_settings =
      let max = at_least_one (to_int32 (env_int "PG_MAX_CONNS" (pos 10))) in
      let min = not_negative (to_int32 (env_int "PG_MIN_CONNS" (pos 2))) in
      record {
        max_conns = max;
        min_conns = capped min max;
        max_conn_lifetime = duration (env_int "PG_MAX_CONN_LIFETIME_MINS" (pos 60)) 60000000000;
        health_check_period = duration (env_int "PG_HEALTH_CHECK_SECS" (pos 30)) 1000000000;
      }

-- What the store calls of pgxpool.
pub record Pgx : Type 1 where
  pub Config : Type 0
  pub Pool : Type 0
  pub parse_config : String → Result Config
  pub new_with_config : Config → PoolSettings → Exec World Pool
  pub ping : Pool → Exec World Unit
  pub exec : Pool → String → Exec World Unit
  pub close : Pool → World → World

module _ (pgx : Pgx) where
  -- The first ping of a new pool, which is closed if it fails.
  abbrev pub ready_or_closed : pgx.Pool → Result (Unit {0}) × World → Result pgx.Pool × World
  ready_or_closed pool (ok _, w) = (ok pool, w)
  ready_or_closed pool (err e, w) = (err (wrap "postgres: ping: " e), pgx.close pool w)

  abbrev pub check_pool : pgx.Pool → Exec World pgx.Pool
  check_pool pool w = ready_or_closed pool (pgx.ping pool w)

  unfoldable pub new : PoolSettings → String → Exec World pgx.Pool
  new settings dsn = do
    config ← on_error (wrap "postgres: parse config: ") (lift (pgx.parse_config dsn))
    pool ← on_error (wrap "postgres: connect: ") (pgx.new_with_config config settings)
    check_pool pool

  -- `Migrate`, with what `migrations.FS.ReadFile` gives.
  unfoldable pub migrate : Result String → pgx.Pool → Exec World Unit
  migrate file pool = do
    up_sql ← on_error (wrap "postgres: read migration: ") (lift file)
    on_error (wrap "postgres: run migration: ") (pgx.exec pool up_sql)

  unfoldable pub notify_skills_changed : pgx.Pool → Exec World Unit
  notify_skills_changed pool = pgx.exec pool "SELECT pg_notify('skills_changed', '')"

  unfoldable pub notify_policies_changed : pgx.Pool → Exec World Unit
  notify_policies_changed pool = pgx.exec pool "SELECT pg_notify('policies_changed', '')"
