-- ===== src/Postgres/Pool/Bounds.antt =====
-- internal/storage/postgres/store.go: the bounds of the settings of the pool.
use hermes_manager.Prelude.{
  ℕ, ◌^◌, ◌≤◌, ◌<◌, String, ◌≡◌, refl, Option, ltb, Bool-cases, inl, inr, arith,
}
use hermes_manager.Storage.{ℤ, pos, negsuc}
use hermes_manager.Postgres.Pool.{
  PoolSettings, signed, wrapped, to_int32, env_int, at_least_one, not_negative, capped,
  pool_settings,
}

signed-below : (half n m : ℕ) → signed half n ≡ pos m → m < half
signed-below half n m h = elim (Bool-cases (ltb n half)) [
  | inl low ↦ let e : pos n ≡ pos m = rw (low) at h in ground (arith, low)
  | inr high ↦ cc (rw (high) at h)
]

to_int32-below : (n : ℤ) (m : ℕ) → to_int32 n ≡ pos m → m < 2 ^ 31
unfolding wrapped
to_int32-below (pos n) m h = signed-below (2 ^ 31) _ m h
to_int32-below (negsuc n) m h = signed-below (2 ^ 31) _ m h

at_least_one-bounds :
    (n : ℤ)
    → ((m : ℕ) → n ≡ pos m → m < 2 ^ 31)
    → (m : ℕ) × (at_least_one n ≡ pos m) × (1 ≤ m) × (m < 2 ^ 31)
at_least_one-bounds (pos n) small = elim (Bool-cases (ltb 0 n)) [
  | inl positive ↦ (n, rw (positive) refl, ground arith, small n refl)
  | inr none ↦ (10, rw (none) refl, omega arith, omega arith)
]
at_least_one-bounds (negsuc n) small = (10, refl, omega arith, omega arith)

natural : (n : ℤ) → (m : ℕ) × (not_negative n ≡ pos m)
natural (pos n) = (n, refl)
natural (negsuc n) = (2, refl)

capped-bounds : (min max : ℕ) → (m : ℕ) × (capped (pos min) (pos max) ≡ pos m) × (m ≤ max)
capped-bounds min max = elim (Bool-cases (ltb max min)) [
  | inl above ↦ (max, rw (above) refl, omega arith)
  | inr below ↦ (min, rw (below) refl, ground arith)
]

-- At least one connection, and a minimum that is not negative and not above the maximum.
pub record IsBounded (s : PoolSettings) : Type 0 where
  pub max : ℕ
  pub min : ℕ
  pub is_max : s.max_conns ≡ pos max
  pub is_min : s.min_conns ≡ pos min
  pub one : 1 ≤ max
  pub ordered : min ≤ max
  pub small : max < 2 ^ 31

-- Whatever the environment holds, numbers outside int32 and texts that are no numbers included, the
-- pool of `New` allows between one and 2 ^ 31 - 1 connections, and keeps a minimum between zero and
-- that maximum.
pub pool_settings-IsBounded :
    (getenv : String → String) (atoi : String → Option ℤ) → IsBounded (pool_settings getenv atoi)
unfolding pool_settings
pool_settings-IsBounded getenv atoi =
    let asked = to_int32 (env_int getenv atoi "PG_MAX_CONNS" (pos 10)) in
    let (max, is_max, one, small) = at_least_one-bounds asked (to_int32-below _) in
    let (floor, is_floor) = natural (to_int32 (env_int getenv atoi "PG_MIN_CONNS" (pos 2))) in
    let (min, is_min, ordered) = capped-bounds floor max in
    record {
      max = max;
      min = min;
      is_max = is_max;
      is_min = rw (is_max, is_floor) is_min;
      one = one;
      ordered = ordered;
      small = small;
    }
