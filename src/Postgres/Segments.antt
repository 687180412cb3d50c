-- ===== src/Postgres/Segments.antt =====
-- The rows that a listing query is about, and the segment of a list that LIMIT and OFFSET leave.
use mathlib.Core.List.{Perm}
use mathlib.Core.List.Perm
use hermes_manager.Prelude.{
  ℕ, zero, suc, ◌≤◌, String, ◌≡◌, refl, ap, ◌⊎◌, inl, inr, Bool, Option, none, some, List, [], ◌∷◌,
  ◌++◌, arith, length, take, drop, filter_by, ◌==◌, if◌then◌else◌, Bool-cases,
}
use hermes_manager.Storage.{Task, TaskState, task_state_text, ℤ}
use hermes_manager.Postgres.Query.{place, order_by, values, task_passes}

-- The tasks of a table, those of a state where one is given.
unfoldable pub in_state : Option TaskState → List (String × Task) → List Task
in_state state [] = []
in_state none ((id, t) ∷ rows) = t ∷ in_state none rows
in_state (some s) ((id, t) ∷ rows) =
    let rest = in_state (some s) rows in
    if task_state_text t.state == task_state_text s then t ∷ rest else rest

pub in_state-filter_by :
    (state : Option TaskState) (limit offset : ℤ) (rows : List (String × Task))
    → in_state state rows
      ≡ filter_by
          (task_passes (record { state = state; limit = limit; offset = offset }))
          (values rows)
unfolding in_state task_passes values
in_state-filter_by none limit offset [] = refl
in_state-filter_by none limit offset ((id, t) ∷ rows) =
    ap (λ ts. t ∷ ts) (in_state-filter_by none limit offset rows)
in_state-filter_by (some s) limit offset [] = refl
in_state-filter_by (some s) limit offset ((id, t) ∷ rows) =
    ground (arith, in_state-filter_by (some s) limit offset rows)

module _ {A : Type 0} (first : A → A → Bool) where
  place-perm : (a : A) (xs : List A) → Perm (place first a xs) (a ∷ xs)
  unfolding place
  place-perm a [] = Perm.refl _
  place-perm a (x ∷ xs) = elim (Bool-cases (first a x)) [
    | inl e ↦ rw e (Perm.refl _)
    | inr e ↦ rw e (Perm.trans (Perm.cons x (place-perm a xs)) (Perm.swap a x xs))
  ]

  pub order_by-perm : (xs : List A) → Perm (order_by first xs) xs
  unfolding order_by
  order_by-perm [] = Perm.refl _
  order_by-perm (x ∷ xs) =
      Perm.trans (place-perm x (order_by first xs)) (Perm.cons x (order_by-perm xs))

module _ {A : Type 0} where
  pub take-append : (n : ℕ) (xs : List A) → take n xs ++ drop n xs ≡ xs
  take-append zero xs = refl
  take-append (suc n) [] = refl
  take-append (suc n) (x ∷ xs) = ap (λ ys. x ∷ ys) (take-append n xs)

  -- The first n elements are n, or all.
  pub take-drop :
      (n : ℕ) (xs : List A)
      → (length (take n xs) ≡ n) ⊎ ((length (take n xs) ≤ n) × (drop n xs ≡ []))
  take-drop zero xs = inl refl
  take-drop (suc n) [] = inr (omega arith, refl)
  take-drop (suc n) (x ∷ xs) = elim (take-drop n xs) [
    | inl full ↦ inl (ap suc full)
    | inr (few, none_left) ↦ inr (omega arith, none_left)
  ]
