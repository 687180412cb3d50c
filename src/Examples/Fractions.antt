-- ===== src/Examples/Fractions.antt =====
-- Exact fractions in the place of float64, to run the scheduler on small numbers.
use native.Mathlib.Nat.{mul-le-mul_right, le_of_mul-le-mul_right}
use hermes_manager.Prelude.{ℕ, suc, ◌+◌, ◌-◌, ◌*◌, ◌≤◌, ◌<◌, arith, ◌≡◌, Bool, true, false, ltb}
use hermes_manager.Storage.{ℤ, pos, pos_part, neg_part}
use hermes_manager.Scheduler.{Floats}
use hermes_manager.Scheduler.LowestLoad.{IsOrder}

-- A number over a positive one.
abbrev Ratio : Type 0
Ratio = ℤ × ℕ

unfoldable pub is_lower : Ratio → Ratio → Bool
is_lower (a, m) (b, n) = ltb (pos_part a * n + neg_part b * m) (pos_part b * m + neg_part a * n)

cross :
    (q q' k p p' n r r' l : ℕ)
    → 0 < n
    → p * k + q' * n ≤ q * n + p' * k
    → r * n + p' * l ≤ p * l + r' * n
    → r * k + q' * l ≤ q * l + r' * k
cross q q' k p p' n r r' l hn one two =
    let a : (p * k + q' * n) * l ≤ (q * n + p' * k) * l = mul-le-mul_right l one in
    let b : (r * n + p' * l) * k ≤ (p * l + r' * n) * k = mul-le-mul_right k two in
    let c : (r * k + q' * l) * n ≤ (q * l + r' * k) * n = omega arith in le_of_mul-le-mul_right c hn

-- What is no lower than a ratio is no lower than a lower one.
is_lower_trans :
    (x b c : Ratio) → 0 < b.1 → is_lower x b ≡ false → is_lower c b ≡ true → is_lower x c ≡ false
unfolding is_lower
is_lower_trans (q, k) (p, n) (r, l) hn one two =
    let done : pos_part r * k + neg_part q * l ≤ pos_part q * l + neg_part r * k =
      cross (pos_part q) (neg_part q) k (pos_part p) (neg_part p) n (pos_part r) (neg_part r) l hn
        (ground arith) (ground arith) in
    ground arith

is_lower_irrefl : (x : Ratio) → is_lower x x ≡ false
unfolding is_lower
is_lower_irrefl (a, m) = ground arith

-- The second number is that below the denominator.
abbrev pub fractions : Floats
fractions = record {
  Float = ℤ × ℕ;
  quotient = λ active max. (active, max - 1);
  less = λ x y. is_lower (x.0, suc x.1) (y.0, suc y.1);
  two = (pos 2, 0);
}

pub fractions-IsOrder : IsOrder fractions
fractions-IsOrder = record {
  irrefl = λ x. is_lower_irrefl (x.0, suc x.1);
  below = λ x b c. is_lower_trans (x.0, suc x.1) (b.0, suc b.1) (c.0, suc c.1) (omega arith);
}
