-- ===== src/Storage/Int.antt =====
-- Go's `int`: `negsuc n` is -(n + 1).
use hermes_manager.Prelude.{ℕ, suc, Bool, true, false, ltb}

pub data ℤ : Type 0 where
  pos : ℕ → ℤ
  negsuc : ℕ → ℤ

-- `n > 0`
abbrev pub is_positive : ℤ → Bool
is_positive (pos n) = ltb 0 n
is_positive (negsuc n) = false

-- `n >= 0`
abbrev pub is_natural : ℤ → Bool
is_natural (pos n) = true
is_natural (negsuc n) = false

-- `n > m` for a constant m
abbrev pub exceeds : ℤ → ℕ → Bool
exceeds (pos n) m = ltb m n
exceeds (negsuc n) m = false

-- The value of a Postgres INTEGER, or of Go's int32.
abbrev pub fits_int32 : ℤ → Bool
fits_int32 (pos n) = ltb n 0x80000000
fits_int32 (negsuc n) = ltb n 0x80000000

abbrev pub pos_part : ℤ → ℕ
pos_part (pos n) = n
pos_part (negsuc n) = 0

abbrev pub neg_part : ℤ → ℕ
neg_part (pos n) = 0
neg_part (negsuc n) = suc n
