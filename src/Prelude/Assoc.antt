-- ===== src/Prelude/Assoc.antt =====
-- Go maps and tables with a primary key: association lists over text keys.
use Prim.Native.String.{String}
use mathlib.Core.Path.{◌≡◌, refl}
use mathlib.Core.Bool.{Bool, true, false}
use mathlib.Core.Option
use mathlib.Core.Option.{Option, none, some}
use mathlib.Core.List.{List, [], ◌∷◌}
use native.Mathlib.Omega.{arith}
use text.Mathlib.Text.{◌==◌}
use text.Mathlib.TextEquality.{eq_iff}
use text.Mathlib.TextPositions.{eq_refl}
use hermes_manager.Prelude.Tests.{if◌then◌else◌}

module _ {ℓ} {V : Type ℓ} where
  -- The value under a key, changed by a function where the key is there.
  unfoldable pub adjust : String → (V → V) → List (String × V) → List (String × V)
  adjust key change [] = []
  adjust key change ((other, old) ∷ rows) =
      if other == key then (other, change old) ∷ rows else (other, old) ∷ adjust key change rows

  unfoldable pub lookup : String → List (String × V) → Option V
  lookup key [] = none
  lookup key ((other, value) ∷ rows) = if other == key then some value else lookup key rows

  -- `delete(m, k)`
  unfoldable pub delete : String → List (String × V) → List (String × V)
  delete key [] = []
  delete key ((other, value) ∷ rows) =
      let rest = delete key rows in if other == key then rest else (other, value) ∷ rest

  -- The value under a key, replaced if the key is there and added behind the others if not.
  unfoldable pub insert : String → V → List (String × V) → List (String × V)
  insert key value [] = (key, value) ∷ []
  insert key value ((other, old) ∷ rows) =
      if other == key then (key, value) ∷ rows else (other, old) ∷ insert key value rows

  pub lookup-insert :
      (key other : String) (value : V) (rows : List (String × V))
      → lookup other (insert key value rows)
        ≡ (if key == other then some value else lookup other rows)
  unfolding lookup insert
  lookup-insert key other value [] = refl
  lookup-insert key other value ((first, old) ∷ rows) = ground (
    arith,
    lookup-insert key other value rows,
    eq_iff key other,
    eq_iff first key,
    eq_iff first other,
  )

  pub lookup-insert_self :
      (key : String) (value : V) (rows : List (String × V))
      → lookup key (insert key value rows) ≡ some value
  lookup-insert_self key value rows = ground (arith, eq_refl key, lookup-insert key key value rows)

  pub lookup-adjust :
      (k j : String) (f : V → V) (m : List (String × V))
      → lookup j (adjust k f m) ≡ (if k == j then Option.map f (lookup j m) else lookup j m)
  unfolding lookup adjust
  lookup-adjust k j f [] = ground arith
  lookup-adjust k j f ((i, w) ∷ m) =
      ground (arith, eq_iff k j, eq_iff i k, eq_iff i j, lookup-adjust k j f m)

  pub lookup-adjust_self :
      (k : String) (f : V → V) (m : List (String × V))
      → lookup k (adjust k f m) ≡ Option.map f (lookup k m)
  lookup-adjust_self k f m = ground (arith, lookup-adjust k k f m, eq_refl k)

  pub lookup-delete :
      (k j : String) (m : List (String × V))
      → lookup j (delete k m) ≡ (if k == j then none else lookup j m)
  unfolding lookup delete
  lookup-delete k j [] = ground arith
  lookup-delete k j ((i, v) ∷ m) =
      ground (arith, eq_iff k j, eq_iff i k, eq_iff i j, lookup-delete k j m)

  -- The key is absent.
  unfoldable pub is_absent : String → List (String × V) → Bool
  is_absent k m = elim (lookup k m) [ none ↦ true | some _ ↦ false ]

  pub is_absent-insert :
      (k j : String) (v : V) (m : List (String × V))
      → is_absent j (insert k v m) ≡ (if k == j then false else is_absent j m)
  unfolding is_absent
  is_absent-insert k j v m = ground (arith, lookup-insert k j v m)

  pub is_absent-adjust :
      (k j : String) (f : V → V) (m : List (String × V))
      → is_absent j (adjust k f m) ≡ is_absent j m
  unfolding is_absent
  is_absent-adjust k j f m = ground (arith, lookup-adjust k j f m)

  pub is_absent-some :
      (k : String) (m : List (String × V)) (v : V) → lookup k m ≡ some v → is_absent k m ≡ false
  unfolding is_absent
  is_absent-some k m v h = ground arith

  pub lookup-adjust-some :
      (k j : String) (f : V → V) (m : List (String × V)) (v' : V)
      → lookup j (adjust k f m) ≡ some v'
      → (v : V) × (lookup j m ≡ some v) × (v' ≡ (if k == j then f v else v))
  lookup-adjust-some k j f m v' h = ground (arith, lookup-adjust k j f m)

  pub is_absent-eq-false :
      (k : String) (m : List (String × V)) → is_absent k m ≡ false → (v : V) × (lookup k m ≡ some v)
  unfolding is_absent
  is_absent-eq-false k m h = ground arith

  pub is_absent-eq-true :
      (k : String) (m : List (String × V)) → is_absent k m ≡ true → lookup k m ≡ none
  unfolding is_absent
  is_absent-eq-true k m h = ground arith

pub ruleset table_laws = (lookup-insert, lookup-adjust, is_absent-insert, is_absent-adjust)
