-- ===== src/Postgres/Retry.antt =====
-- internal/storage/postgres/health.go: `WithRetry` and `isTransient`, over any state that the retried
-- function changes. What pgx and the context say is a parameter: the code of a `pgconn.PgError`, the
-- test for `context.DeadlineExceeded`, and whether the context is done in the wait after an attempt,
-- whose length is left out.
use hermes_manager.Prelude.{
  ℕ, zero, suc, ◌+◌, ◌<◌, String, ◌≡◌, refl, Bool, true, false, Option, none, some, [], ◌∷◌, ◌==◌,
  ◌||◌, Error, errorf, wrapf, plain, Result, ok, err, Exec, eqb, if◌then◌else◌, Bool-cases,
  Option-cases, inl, inr, arith, subst,
}

-- What the function reads of errors and of the context.
pub record Surroundings : Type 0 where
  -- `errors.As(err, &pgErr)`, and the code
  pub pg_code : Error → Option String
  -- `errors.Is(err, context.DeadlineExceeded)`
  pub is_deadline : Error → Bool
  -- `ctx.Err()` where the context is done before the wait after this attempt is over
  pub cancelled : ℕ → Option Error
  -- `%d`
  pub itoa : ℕ → String

unfoldable pub is_transient_code : String → Bool
is_transient_code code =
    code == "40001"
    || code == "40P01"
    || code == "08000"
    || code == "08003"
    || code == "08006"
    || code == "57P01"

-- A nil error is never asked about.
unfoldable pub is_transient : Surroundings → Error → Bool
is_transient s e = elim (s.pg_code e) [
  | some code ↦ is_transient_code code
  | none ↦ s.is_deadline e
]

-- The error at the end of the loop; with no attempt, `%w` of nil.
abbrev pub exceeded : Surroundings → ℕ → Option Error → Error
exceeded s max none =
    errorf
      (plain "postgres: max retries (" ∷ plain (s.itoa max) ∷ plain ") exceeded: %!w(<nil>)" ∷ [])
exceeded s max (some e) =
    wrapf (plain "postgres: max retries (" ∷ plain (s.itoa max) ∷ plain ") exceeded: " ∷ []) e []

module _ (s : Surroundings) {W : Type 0} (max : ℕ) (fn : Exec W Unit) where
  -- The wait, where an attempt is left.
  unfoldable pub wait : ℕ → ℕ → Exec W Unit → Exec W Unit
  wait attempt left next w =
      if eqb left 0
      then next w
      else (elim (s.cancelled attempt) [ none ↦ next w | some cause ↦ (err cause, w) ])

  unfoldable pub after_attempt :
      ℕ → ℕ → (Error → Exec W Unit) → Result (Unit {0}) × W → Result (Unit {0}) × W
  after_attempt attempt left next (ok u, w) = (ok u, w)
  after_attempt attempt left next (err e, w) =
      if is_transient s e then wait attempt left (next e) w else (err e, w)

  -- The loop from an attempt on, with so many left.
  unfoldable pub retry_from : ℕ → ℕ → Option Error → Exec W Unit
  retry_from attempt zero last w = (err (exceeded s max last), w)
  retry_from attempt (suc left) last w =
      after_attempt attempt left (λ e. retry_from (suc attempt) left (some e)) (fn w)

  unfoldable pub with_retry : Exec W Unit
  with_retry = retry_from 0 max none

  -- So many calls in a row that returned a transient error.
  pub data Failed : ℕ → W → W → Type 0 where
    never : {w : W} → Failed 0 w w
    again :
        {n : ℕ} {w v u : W} {e : Error}
        → fn w ≡ (err e, v)
        → is_transient s e ≡ true
        → Failed n v u
        → Failed (suc n) w u

  -- How the loop ends, from an attempt on with so many left: a call succeeds, or returns an error
  -- that is not transient, or the context is done in a wait, or no attempt is left.
  pub data Ends (attempt left : ℕ) (w : W) : Result (Unit {0}) × W → Type 0 where
    succeeded :
        {k : ℕ} {v u : W}
        → k < left
        → Failed k w v
        → fn v ≡ (ok tt, u)
        → Ends attempt left w (ok tt, u)
    stopped :
        {k : ℕ} {v u : W} {e : Error}
        → k < left
        → Failed k w v
        → fn v ≡ (err e, u)
        → is_transient s e ≡ false
        → Ends attempt left w (err e, u)
    interrupted :
        {k : ℕ} {v : W} {cause : Error}
        → suc k < left
        → Failed (suc k) w v
        → s.cancelled (attempt + k) ≡ some cause
        → Ends attempt left w (err cause, v)
    exhausted :
        {v : W} (last : Option Error)
        → Failed left w v
        → Ends attempt left w (err (exceeded s max last), v)

  Ends-again :
      (attempt left : ℕ) (w v : W) (e : Error) (r : Result (Unit {0}) × W)
      → fn w ≡ (err e, v)
      → is_transient s e ≡ true
      → Ends (suc attempt) left v r
      → Ends attempt (suc left) w r
  Ends-again attempt left w v e _ ran transient (succeeded small failed done) =
      succeeded (omega arith) (again ran transient failed) done
  Ends-again attempt left w v e _ ran transient (stopped small failed done final) =
      stopped (omega arith) (again ran transient failed) done final
  Ends-again attempt left w v e _ ran transient
        (interrupted {k = k} {cause = cause} small failed done) =
      interrupted (omega arith) (again ran transient failed)
        (subst (λ n. s.cancelled n ≡ some cause) (omega arith) done)
  Ends-again attempt left w v e _ ran transient (exhausted last failed) =
      exhausted last (again ran transient failed)

  after_attempt-Ends :
      (attempt left : ℕ) (w : W) (r : Result (Unit {0}) × W)
      → fn w ≡ r
      → ((e : Error) (v : W) → Ends (suc attempt) left v (retry_from (suc attempt) left (some e) v))
      → Ends attempt
          (suc left)
          w
          (after_attempt attempt left (λ e. retry_from (suc attempt) left (some e)) r)
  unfolding after_attempt wait
  after_attempt-Ends attempt left w (ok tt, v) ran rest = succeeded (omega arith) never ran
  after_attempt-Ends attempt left w (err e, v) ran rest = elim (Bool-cases (is_transient s e)) [
    | inr final ↦ rw final (stopped (omega arith) never ran final)
    | inl transient ↦ rw transient (elim (Bool-cases (eqb left 0)) [
      | inl last ↦ rw last (Ends-again attempt left w v e _ ran transient (rest e v))
      | inr more ↦ rw more (elim (Option-cases (s.cancelled attempt)) [
        | inl waited ↦ rw waited (Ends-again attempt left w v e _ ran transient (rest e v))
        | inr (cause, done) ↦ rw done (
            interrupted {k = 0} (ground arith) (again ran transient never)
              (subst (λ n. s.cancelled n ≡ some cause) (omega arith) done))
      ])
    ])
  ]

  retry_from-Ends :
      (attempt left : ℕ) (last : Option Error) (w : W)
      → Ends attempt left w (retry_from attempt left last w)
  unfolding retry_from
  retry_from-Ends attempt zero last w = exhausted last never
  retry_from-Ends attempt (suc left) last w =
      after_attempt-Ends attempt left w (fn w) refl
        (λ e v. retry_from-Ends (suc attempt) left (some e) v)

  -- `WithRetry` calls its function at most `max` times. It returns nil after a call that returned
  -- nil, all calls before having failed with transient errors; it returns the first error that is not
  -- transient as it is; it returns the context's error where that is done in a wait, which only
  -- follows a transient failure with an attempt left; and otherwise all `max` calls have failed with
  -- transient errors.
  pub with_retry-Ends : (w : W) → Ends 0 max w (with_retry w)
  unfolding with_retry
  with_retry-Ends w = retry_from-Ends 0 max none w
