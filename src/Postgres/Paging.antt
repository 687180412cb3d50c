-- ===== src/Postgres/Paging.antt =====
-- The listing queries of the store: order, filter and page size.
use mathlib.Core.List.{Perm}
use hermes_manager.Prelude.{
  ◌++◌, ◌⊎◌, sym, ℕ, zero, suc, ◌≤◌, String, ◌≡◌, ◌∙◌, refl, Bool, true, false, some, eq_iff, subst,
  List, [], ◌∷◌, arith, ok, All, length, take, drop, leb, filter_by, Bool-cases, inl, inr, ap,
}
use hermes_manager.Storage.{
  Task, TaskState, task_state_text, TaskFilter, ℤ, pos, negsuc, is_positive,
}
use hermes_manager.Postgres.Segments.{
  in_state, in_state-filter_by, order_by-perm, take-append, take-drop,
}
use hermes_manager.Postgres.Query.{
  place, order_by, values, page, effective_limit, newer_task, task_passes, select_tasks,
}

module _ {A : Type 0} (P : A → Type 0) where
  All-take : (n : ℕ) (xs : List A) → All P xs → All P (take n xs)
  All-take zero xs h = tt
  All-take (suc n) [] h = tt
  All-take (suc n) (x ∷ xs) (p, h) = (p, All-take n xs h)

  All-drop : (n : ℕ) (xs : List A) → All P xs → All P (drop n xs)
  All-drop zero xs h = h
  All-drop (suc n) [] h = tt
  All-drop (suc n) (x ∷ xs) (p, h) = All-drop n xs h

  All-place :
      (first : A → A → Bool) (a : A) (xs : List A) → P a → All P xs → All P (place first a xs)
  unfolding place
  All-place first a [] p h = (p, tt)
  All-place first a (x ∷ xs) p (q, h) = ground (arith, All-place first a xs p h)

  All-order_by : (first : A → A → Bool) (xs : List A) → All P xs → All P (order_by first xs)
  unfolding order_by
  All-order_by first [] h = tt
  All-order_by first (x ∷ xs) (p, h) =
      All-place first x (order_by first xs) p (All-order_by first xs h)

module _ {A : Type 0} (p : A → Bool) where
  All-filter_by : (xs : List A) → All (λ x. p x ≡ true) (filter_by p xs)
  All-filter_by [] = tt
  All-filter_by (x ∷ xs) = ground (arith, All-filter_by xs)

-- Every task comes before no newer one.
abbrev pub IsNewestFirst : List Task → Type 0
IsNewestFirst [] = Unit
IsNewestFirst (t ∷ ts) = All (λ u. u.created_at ≤ t.created_at) ts × IsNewestFirst ts

All-le :
    (a b : ℕ) (ts : List Task)
    → a ≤ b
    → All (λ u. u.created_at ≤ a) ts
    → All (λ u. u.created_at ≤ b) ts
All-le a b [] h k = tt
All-le a b (t ∷ ts) h (p, k) = (omega arith, All-le a b ts h k)

place-IsNewestFirst :
    (t : Task) (ts : List Task) → IsNewestFirst ts → IsNewestFirst (place newer_task t ts)
unfolding place newer_task
place-IsNewestFirst t [] h = (tt, tt)
place-IsNewestFirst t (u ∷ ts) (below, h) = elim (Bool-cases (leb u.created_at t.created_at)) [
  | inl e ↦
      rw e ((ground arith, All-le u.created_at t.created_at ts (ground arith) below), (below, h))
  | inr e ↦ rw e (
    All-place (λ v. v.created_at ≤ u.created_at) newer_task t ts (ground arith) below,
    place-IsNewestFirst t ts h,
  )
]

order_by-IsNewestFirst : (ts : List Task) → IsNewestFirst (order_by newer_task ts)
unfolding order_by
order_by-IsNewestFirst [] = tt
order_by-IsNewestFirst (t ∷ ts) =
    place-IsNewestFirst t (order_by newer_task ts) (order_by-IsNewestFirst ts)

take-IsNewestFirst : (n : ℕ) (ts : List Task) → IsNewestFirst ts → IsNewestFirst (take n ts)
take-IsNewestFirst zero ts h = tt
take-IsNewestFirst (suc n) [] h = tt
take-IsNewestFirst (suc n) (t ∷ ts) (p, h) = (All-take _ n ts p, take-IsNewestFirst n ts h)

drop-IsNewestFirst : (n : ℕ) (ts : List Task) → IsNewestFirst ts → IsNewestFirst (drop n ts)
drop-IsNewestFirst zero ts h = h
drop-IsNewestFirst (suc n) [] h = tt
drop-IsNewestFirst (suc n) (t ∷ ts) (p, h) = drop-IsNewestFirst n ts h

length-take_le {ℓ} : {A : Type ℓ} (n : ℕ) (xs : List A) → length (take n xs) ≤ n
length-take_le zero xs = omega arith
length-take_le (suc n) [] = omega arith
length-take_le (suc n) (x ∷ xs) = omega (arith, length-take_le n xs)

page-eq-ok :
    {A : Type 0} (limit : ℕ) (offset : ℤ) (rows xs : List A)
    → page limit offset rows ≡ ok xs
    → (n : ℕ) × (offset ≡ pos n) × (xs ≡ take limit (drop n rows))
unfolding page
page-eq-ok limit (pos n) rows xs h = (n, refl, cc)
page-eq-ok limit (negsuc n) rows xs h = cc

effective_limit_pos : (n default : ℕ) → effective_limit (pos (suc n)) default ≡ suc n
unfolding effective_limit
effective_limit_pos n default = ground arith

effective_limit_default :
    (limit : ℤ) (default : ℕ) → is_positive limit ≡ false → effective_limit limit default ≡ default
unfolding effective_limit
effective_limit_default (pos n) default h = ground arith
effective_limit_default (negsuc n) default h = refl

passes-state :
    (filter : TaskFilter) (s : TaskState) (ts : List Task)
    → filter.state ≡ some s
    → All (λ t. task_passes filter t ≡ true) ts
    → All (λ t. task_state_text t.state ≡ task_state_text s) ts
unfolding task_passes
passes-state filter s [] named h = tt
passes-state filter s (t ∷ ts) named (p, h) = (
  (eq_iff (task_state_text t.state) (task_state_text s)).0 (rw (named) at p),
  passes-state filter s ts named h,
)

-- The page stands in a list of all tasks that the filter is about, newest first, behind as many as the
-- offset says, and it is full unless nothing is left behind it.
pub record IsPage (filter : TaskFilter) (rows : List (String × Task)) (ts : List Task)
    : Type 0 where
  pub before : List Task
  pub after : List Task
  pub offset : ℕ
  pub offset_is : filter.offset ≡ pos offset
  pub whole : Perm (before ++ (ts ++ after)) (in_state filter.state rows)
  pub sorted : IsNewestFirst (before ++ (ts ++ after))
  pub skipped : (length before ≡ offset) ⊎ ((length before ≤ offset) × (ts ++ after ≡ []))
  pub full : (n : ℕ) → filter.limit ≡ pos (suc n) → (length ts ≡ suc n) ⊎ (after ≡ [])
  pub full_default : is_positive filter.limit ≡ false → (length ts ≡ 50) ⊎ (after ≡ [])

full_or_last :
    (limit : ℕ) (xs : List Task) → (length (take limit xs) ≡ limit) ⊎ (drop limit xs ≡ [])
full_or_last limit xs = elim (take-drop limit xs) [
  | inl full ↦ inl full
  | inr (few, last) ↦ inr last
]

segment-IsPage :
    (filter : TaskFilter) (rows : List (String × Task)) (o limit : ℕ)
    → filter.offset ≡ pos o
    → effective_limit filter.limit 50 ≡ limit
    → IsPage filter rows
        (take limit (drop o (order_by newer_task (filter_by (task_passes filter) (values rows)))))
segment-IsPage filter rows o limit at lim =
    let passing = filter_by (task_passes filter) (values rows) in
    let sorted = order_by newer_task passing in
    let rest = drop o sorted in
    let whole : take o sorted ++ (take limit rest ++ drop limit rest) ≡ sorted =
      ap (λ ys. take o sorted ++ ys) (take-append limit rest) ∙ take-append o sorted in
    let fits : (length (take limit rest) ≡ limit) ⊎ (drop limit rest ≡ []) =
      full_or_last limit rest in
    record {
      before = take o sorted;
      after = drop limit rest;
      offset = o;
      offset_is = at;
      whole =
          subst (λ xs. Perm xs (in_state filter.state rows)) (sym whole)
            (subst (λ xs. Perm sorted xs)
              (sym (in_state-filter_by filter.state filter.limit filter.offset rows))
              (order_by-perm newer_task passing));
      sorted = subst IsNewestFirst (sym whole) (order_by-IsNewestFirst passing);
      skipped = elim (take-drop o sorted) [
        | inl all ↦ inl all
        | inr (few, none_left) ↦ inr (few, ap (λ ys. ys) (take-append limit rest) ∙ none_left)
      ];
      full = λ n is.
          subst (λ m. (length (take limit rest) ≡ m) ⊎ (drop limit rest ≡ []))
            (sym lim ∙ ap (λ l. effective_limit l 50) is ∙ effective_limit_pos n 50) fits;
      full_default = λ low.
          subst (λ m. (length (take limit rest) ≡ m) ⊎ (drop limit rest ≡ []))
            (sym lim ∙ effective_limit_default filter.limit 50 low) fits;
    }

-- A page of tasks holds at most the limit where that is positive, and else at most 50; where the filter
-- names a state, its tasks have the text of that state; they stand newest first; and they are a segment
-- of all tasks that the filter is about, in an order with the newest first, behind as many of them as
-- the offset says (or behind all), and full unless nothing is left behind it.
pub select_tasks_lem :
    (filter : TaskFilter) (rows : List (String × Task)) (ts : List Task)
    → select_tasks filter rows ≡ ok ts
    → ((n : ℕ) → filter.limit ≡ pos (suc n) → length ts ≤ suc n)
      × (is_positive filter.limit ≡ false → length ts ≤ 50)
      × ((s : TaskState)
          → filter.state ≡ some s
          → All (λ t. task_state_text t.state ≡ task_state_text s) ts)
      × IsNewestFirst ts
      × IsPage filter rows ts
unfolding select_tasks
select_tasks_lem filter rows ts h =
    let passing = filter_by (task_passes filter) (values rows) in
    let sorted = order_by newer_task passing in
    let (n, at, e) = page-eq-ok (effective_limit filter.limit 50) filter.offset sorted ts h in
    let few : length ts ≤ effective_limit filter.limit 50 =
      rw e (length-take_le _ (drop n sorted)) in
    let pass : All (λ t. task_passes filter t ≡ true) ts = rw e (
      All-take _ _ _ (
        All-drop _ n sorted (
          All-order_by _ newer_task passing (All-filter_by (task_passes filter) (values rows))))) in
    (
      λ k limit.
          subst (λ m. length ts ≤ m)
            (ap (λ l. effective_limit l 50) limit ∙ effective_limit_pos k 50) few,
      λ low. subst (λ m. length ts ≤ m) (effective_limit_default filter.limit 50 low) few,
      λ s named. passes-state filter s ts named pass,
      rw e (take-IsNewestFirst _ _ (drop-IsNewestFirst n sorted (order_by-IsNewestFirst passing))),
      rw e (segment-IsPage filter rows n (effective_limit filter.limit 50) at refl),
    )
