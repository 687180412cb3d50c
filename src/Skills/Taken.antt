-- ===== src/Skills/Taken.antt =====
-- The skills that the table takes, over a network that fails nothing.
use hermes_manager.Prelude.{
  ◌≡◌, refl, ◌∙◌, ap, true, false, none, some, [], ◌∷◌, Result, ok, err, insert, if◌then◌else◌,
  Bool, inl, inr, wrapf, plain, library, not, Option-cases,
}
use hermes_manager.Storage.{Skill}
use hermes_manager.World.{World}
use hermes_manager.Postgres.{has_null, upsert_skill}
use hermes_manager.Postgres.Statement.{statement_through}

-- A skill has its three lists, which may be empty.
unfoldable pub is_complete : Skill → Bool
is_complete sk = elim sk.parameters [
  | none ↦ false
  | some _ ↦ elim sk.required_tools [
    | none ↦ false
    | some _ ↦ elim sk.required_models [ none ↦ false | some _ ↦ true ]
  ]
]

-- What becomes of a file's skill: the table takes it, or refuses one that lacks a list.
unfoldable pub taken : Result Skill → Result Skill
taken (err e) = err e
taken (ok sk) =
    if is_complete sk
    then ok sk
    else err (
        wrapf (plain "skills: upsert " ∷ plain sk.name ∷ plain ": " ∷ [])
          (library "null value violates not-null constraint") [])

has_null-is_complete : (sk : Skill) → has_null sk ≡ not (is_complete sk)
unfolding has_null is_complete
has_null-is_complete sk = elim (Option-cases sk.parameters) [
  | inl a ↦ rw a refl
  | inr (_, a) ↦ rw a (elim (Option-cases sk.required_tools) [
    | inl b ↦ rw b refl
    | inr (_, b) ↦
        rw b (elim (Option-cases sk.required_models) [ inl c ↦ rw c refl | inr (_, c) ↦ rw c refl ])
  ])
]

pub upsert_skill_quiet :
    (sk : Skill) (w : World)
    → w.net ≡ []
    → is_complete sk ≡ true
    → upsert_skill sk w
      ≡ (ok tt, record w { db = record w.db { skills = insert sk.name sk w.db.skills } })
unfolding upsert_skill
upsert_skill_quiet sk w quiet complete =
    let e : has_null sk ≡ false = has_null-is_complete sk ∙ ap not complete in
    statement_through _ w quiet ∙ rw (e, upsert_skill) refl

pub upsert_skill_refused :
    (sk : Skill) (w : World)
    → w.net ≡ []
    → is_complete sk ≡ false
    → upsert_skill sk w ≡ (err (library "null value violates not-null constraint"), w)
unfolding upsert_skill
upsert_skill_refused sk w quiet partial =
    let e : has_null sk ≡ true = has_null-is_complete sk ∙ ap not partial in
    statement_through _ w quiet ∙ rw (e, upsert_skill) refl
