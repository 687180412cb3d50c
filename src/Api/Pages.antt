-- ===== src/Api/Pages.antt =====
-- The page parameters `limit` and `offset` of GET /v1/tasks and GET /v1/events in
-- internal/api/router.go. Both handlers hold this code.
use hermes_manager.Prelude.{
  String, ◌≡◌, refl, ◌≤◌, Bool, true, Option, none, some, ◌==◌, ltb, if◌then◌else◌, arith,
  Bool-cases, Option-cases, inl, inr,
}
use hermes_manager.Storage.{ℤ, pos, negsuc, is_positive, is_natural, exceeds}

-- The query parameter's text by `strconv.Atoi`, where the test on it holds.
unfoldable pub number_or : (String → Option ℤ) → (ℤ → Bool) → ℤ → String → ℤ
number_or atoi accepted default text =
    if text == ""
    then default
    else (elim (atoi text) [ none ↦ default | some n ↦ if accepted n then n else default ])

-- `Limit: 50`, then the parameter if it is positive, then at most `maxPageSize`.
unfoldable pub page_limit : (String → Option ℤ) → String → ℤ
unfolding number_or
page_limit atoi text =
    let n = number_or atoi is_positive (pos 50) text in if exceeds n 100 then pos 100 else n

-- `Offset: 0`, then the parameter if it is not negative.
unfoldable pub page_offset : (String → Option ℤ) → String → ℤ
unfolding number_or
page_offset atoi text = number_or atoi is_natural (pos 0) text

-- A limit that `effective_limit` keeps: between 1 and 100.
unfoldable pub IsPageLimit : ℤ → Type 0
IsPageLimit (pos n) = (1 ≤ n) × (n ≤ 100)
IsPageLimit (negsuc n) = ⊥

number_or-positive :
    (atoi : String → Option ℤ) (text : String)
    → is_positive (number_or atoi is_positive (pos 50) text) ≡ true
unfolding number_or
number_or-positive atoi text = elim (Bool-cases (text == "")) [
  | inl empty ↦ rw empty refl
  | inr present ↦ rw present (elim (Option-cases (atoi text)) [
    | inl none_there ↦ rw none_there refl
    | inr (n, read) ↦ rw read (elim (Bool-cases (is_positive n)) [
      | inl positive ↦ rw positive positive
      | inr negative ↦ rw negative refl
    ])
  ])
]

capped-IsPageLimit :
    (n : ℤ) → is_positive n ≡ true → IsPageLimit (if exceeds n 100 then pos 100 else n)
unfolding IsPageLimit
capped-IsPageLimit (pos n) h = elim (Bool-cases (ltb 100 n)) [
  | inl big ↦ rw big (omega arith, omega arith)
  | inr small ↦ rw small (ground arith, ground arith)
]
capped-IsPageLimit (negsuc n) h = cc

pub page_limit-IsPageLimit :
    (atoi : String → Option ℤ) (text : String) → IsPageLimit (page_limit atoi text)
unfolding page_limit
page_limit-IsPageLimit atoi text =
    capped-IsPageLimit (number_or atoi is_positive (pos 50) text) (number_or-positive atoi text)

pub page_offset-is_natural :
    (atoi : String → Option ℤ) (text : String) → is_natural (page_offset atoi text) ≡ true
unfolding page_offset number_or
page_offset-is_natural atoi text = elim (Bool-cases (text == "")) [
  | inl empty ↦ rw empty refl
  | inr present ↦ rw present (elim (Option-cases (atoi text)) [
    | inl none_there ↦ rw none_there refl
    | inr (n, read) ↦ rw read (elim (Bool-cases (is_natural n)) [
      | inl natural ↦ rw natural natural
      | inr negative ↦ rw negative refl
    ])
  ])
]
