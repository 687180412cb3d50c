-- ===== src/Runtime/Registry.antt =====
-- The registry of factories: `Register`, then `Get`.
use hermes_manager.Prelude.{
  String, ◌≡◌, refl, ◌∙◌, ap, false, none, some, List, ok, lookup, insert, lookup-insert,
  lookup-insert_self, is_absent, is_absent-some, ◌==◌, Bool-cases, inl, inr,
}
use hermes_manager.Runtime.{Factory, register, get}

taken_panics :
    {W : Type 0} (name : String) (g : Factory W) (registry : List (String × Factory W))
    (f : Factory W)
    → lookup name registry ≡ some f
    → register name g registry ≡ none
unfolding register
taken_panics name g registry f found =
    let taken : is_absent name registry ≡ false = is_absent-some name registry f found in
    rw (taken, register) refl

module _ {W : Type 0} (name : String) (f : Factory W) (registry : List (String × Factory W)) where
  register-eq-some :
      (after : List (String × Factory W))
      → register name f registry ≡ some after
      → after ≡ insert name f registry
  unfolding register
  register-eq-some after h = elim (Bool-cases (is_absent name registry)) [
    | inl free ↦ cc (rw (free, register) at h)
    | inr taken ↦ cc (rw (taken, register) at h)
  ]

  -- A registration that does not panic makes its factory the one that `Get` finds under its name,
  -- leaves what `Get` finds under the other names, and makes any further registration under that
  -- name panic.
  pub register-get :
      (after : List (String × Factory W))
      → register name f registry ≡ some after
      → (get name after ≡ ok f)
        × ((other : String) → (name == other) ≡ false → get other after ≡ get other registry)
        × ((g : Factory W) → register name g after ≡ none)
  unfolding get
  register-get after h =
      let e = register-eq-some after h in
      let found : lookup name after ≡ some f =
        ap (lookup name) e ∙ lookup-insert_self name f registry in
      (
        rw (found, get) refl,
        (λ other ne.
            let same : lookup other after ≡ lookup other registry =
              ap (lookup other) e ∙ lookup-insert name other f registry ∙ rw ne refl in
            rw (same, get) refl),
        (λ g. taken_panics name g after f found),
      )
