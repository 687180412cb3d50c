-- ===== src/Postgres/Health.antt =====
-- internal/storage/postgres/health.go: the background ping and `WaitForReady`, by the events that the
-- two loops select in turn.
use hermes_manager.Prelude.{
  String, ◌≡◌, refl, Bool, true, false, Option, none, some, List, [], ◌∷◌, ◌++◌, Result, ok, err,
  Error, errorf, plain,
}

-- A line of the log: the check failed, or it recovered.
pub data LogLine : Type 0 where
  check_failed : Error → LogLine
  check_recovered : LogLine

abbrev pub is_ok : Result (Unit {0}) → Bool
is_ok (ok _) = true
is_ok (err e) = false

-- What a tick writes to the log, by `wasHealthy` and the ping.
abbrev pub log_of : Bool → Result (Unit {0}) → List LogLine
log_of true (err e) = check_failed e ∷ []
log_of false (ok _) = check_recovered ∷ []
log_of true (ok _) = []
log_of false (err e) = []

-- The flag that `IsHealthy` returns and the log, after the pings of some ticks.
unfoldable pub health_check : Bool → List (Result (Unit {0})) → Bool × List LogLine
health_check healthy [] = (healthy, [])
health_check healthy (ping ∷ pings) =
    let (last, log) = health_check (is_ok ping) pings in (last, log_of healthy ping ++ log)

-- `StartHealthCheck`: healthy at the start.
unfoldable pub start_health_check : List (Result (Unit {0})) → Bool × List LogLine
start_health_check pings = health_check true pings

-- What `WaitForReady` selects: the context is done, the time is over, or a tick with its ping.
pub data WaitEvent : Type 0 where
  cancelled : Error → WaitEvent
  deadline : WaitEvent
  tick : Result (Unit {0}) → WaitEvent

-- Without a result it still waits.
unfoldable pub wait_for_ready : String → List WaitEvent → Option (Result (Unit {0}))
wait_for_ready timeout [] = none
wait_for_ready timeout (cancelled e ∷ events) = some (err e)
wait_for_ready timeout (deadline ∷ events) =
    some (err (errorf (plain "postgres: not ready after " ∷ plain timeout ∷ [])))
wait_for_ready timeout (tick (ok _) ∷ events) = some (ok tt)
wait_for_ready timeout (tick (err e) ∷ events) = wait_for_ready timeout events

-- A log that tells the states apart: from one health to another, each change by one line.
pub data Tells : Bool → Bool → List LogLine → Type 0 where
  same : {b : Bool} → Tells b b []
  broke :
      {last : Bool} {log : List LogLine} (e : Error)
      → Tells false last log
      → Tells true last (check_failed e ∷ log)
  mended :
      {last : Bool} {log : List LogLine}
      → Tells true last log
      → Tells false last (check_recovered ∷ log)

health_check-Tells :
    (healthy : Bool) (pings : List (Result (Unit {0})))
    → Tells healthy (health_check healthy pings).0 (health_check healthy pings).1
unfolding health_check
health_check-Tells healthy [] = same
health_check-Tells true (ok _ ∷ pings) = health_check-Tells true pings
health_check-Tells true (err e ∷ pings) = broke e (health_check-Tells false pings)
health_check-Tells false (ok _ ∷ pings) = mended (health_check-Tells true pings)
health_check-Tells false (err e ∷ pings) = health_check-Tells false pings

abbrev pub last_ok : Bool → List (Result (Unit {0})) → Bool
last_ok b [] = b
last_ok b (p ∷ ps) = last_ok (is_ok p) ps

health_check-last :
    (healthy : Bool) (pings : List (Result (Unit {0})))
    → (health_check healthy pings).0 ≡ last_ok healthy pings
unfolding health_check
health_check-last healthy [] = refl
health_check-last healthy (p ∷ ps) = health_check-last (is_ok p) ps

-- After any pings, the flag says whether the last one went through, true if there was none, and the log
-- has one line for each change of the flag, a failure and a recovery in turn, and no other.
pub start_health_check-Tells :
    (pings : List (Result (Unit {0})))
    → ((start_health_check pings).0 ≡ last_ok true pings)
      × Tells true (start_health_check pings).0 (start_health_check pings).1
unfolding start_health_check
start_health_check-Tells pings = (health_check-last true pings, health_check-Tells true pings)
