-- ===== src/Prelude/Effects.antt =====
-- Functions that change a state and may return an error, as Go's `(T, error)`. What was written
-- before an error stays written, so the state comes back beside the error too.
use mathlib.Core.Path.{◌≡◌, refl, ap}
use mathlib.Core.Logic.{◌⊎◌, inl, inr}
use hermes_manager.Prelude.Errors.{Error}

pub data Result {ℓ} (A : Type ℓ) : Type ℓ where
  ok : A → Result A
  err : Error → Result A

abbrev pub Exec {ℓ} : Type ℓ → Type ℓ → Type ℓ
Exec W A = W → Result A × W

module _ {ℓ} {W A : Type ℓ} where
  abbrev pub pure : A → Exec W A
  pure a w = (ok a, w)

  abbrev pub raise : Error → Exec W A
  raise e w = (err e, w)

  abbrev pub lift : Result A → Exec W A
  lift r w = (r, w)

  -- `if err != nil { return ..., f(err) }`
  abbrev pub map_err_result : (Error → Error) → Result A × W → Result A × W
  map_err_result f (ok a, w) = (ok a, w)
  map_err_result f (err e, w) = (err (f e), w)

  abbrev pub on_error : (Error → Error) → Exec W A → Exec W A
  on_error f m w = map_err_result f (m w)

  -- The error as a value, for code that goes on after it.
  abbrev pub attempt : Exec W A → Exec W (Result A)
  attempt m w = (ok (m w).0, (m w).1)

module _ {ℓ} {W A B : Type ℓ} where
  abbrev pub continue : Result A × W → (A → Exec W B) → Result B × W
  continue (ok a, w) f = f a w
  continue (err e, w) f = (err e, w)

  infixl 10 ◌>>=◌ ◌>>◌
  abbrev pub ◌>>=◌ : Exec W A → (A → Exec W B) → Exec W B
  ◌>>=◌ m f w = continue (m w) f

  abbrev pub ◌>>◌ : Exec W A → Exec W B → Exec W B
  m >> n = m >>= λ _. n

  -- What a successful sequence says of its parts, for proofs where the parts stay shut.
  continue-eq-ok :
      (r : Result A × W) (f : A → Exec W B) (b : B) (w : W)
      → continue r f ≡ (ok b, w)
      → (a : A) × (v : W) × (r ≡ (ok a, v)) × (f a v ≡ (ok b, w))
  continue-eq-ok (ok a, v) f b w h = (a, v, refl, h)
  continue-eq-ok (err e, v) f b w h = cc

  pub >>=-eq-ok :
      (m : Exec W A) (f : A → Exec W B) (u : W) (b : B) (w : W)
      → (m >>= f) u ≡ (ok b, w)
      → (a : A) × (v : W) × (m u ≡ (ok a, v)) × (f a v ≡ (ok b, w))
  >>=-eq-ok m f u b w h = continue-eq-ok (m u) f b w h

  continue-eq-err :
      (r : Result A × W) (f : A → Exec W B) (e : Error) (w : W)
      → continue r f ≡ (err e, w)
      → (r ≡ (err e, w)) ⊎ ((a : A) × (v : W) × (r ≡ (ok a, v)) × (f a v ≡ (err e, w)))
  continue-eq-err (ok a, v) f e w h = inr (a, v, refl, h)
  continue-eq-err (err c, v) f e w h = inl (cc)

  -- A sequence that returns an error stopped at its first part, or went on to its second.
  pub >>=-eq-err :
      (m : Exec W A) (f : A → Exec W B) (u : W) (e : Error) (w : W)
      → (m >>= f) u ≡ (err e, w)
      → (m u ≡ (err e, w)) ⊎ ((a : A) × (v : W) × (m u ≡ (ok a, v)) × (f a v ≡ (err e, w)))
  >>=-eq-err m f u e w h = continue-eq-err (m u) f e w h

  continue_post :
      (P : W → Type ℓ) (r : Result A × W) (f : A → Exec W B)
      → P r.1
      → ((a : A) (v : W) → r ≡ (ok a, v) → P v → P (f a v).1)
      → P (continue r f).1
  continue_post P (ok a, v) f here later = later a v refl here
  continue_post P (err e, v) f here later = here

  -- What holds of the state at each exit of a sequence: at the end of the first part, and, where
  -- that returned a value, at the end of the rest.
  pub >>=-post :
      (P : W → Type ℓ) (m : Exec W A) (f : A → Exec W B) (u : W)
      → P (m u).1
      → ((a : A) (v : W) → m u ≡ (ok a, v) → P v → P (f a v).1)
      → P ((m >>= f) u).1
  >>=-post P m f u here later = continue_post P (m u) f here later

  continue_through :
      (Q P : W → Type ℓ) (r : Result A × W) (f : A → Exec W B)
      → Q r.1
      → ((v : W) → Q v → P v)
      → ((a : A) (v : W) → Q v → P (f a v).1)
      → P (continue r f).1
  continue_through Q P (ok a, v) f mid stop go = go a v mid
  continue_through Q P (err e, v) f mid stop go = stop v mid

  -- The same by way of what holds in the middle.
  pub >>=-through :
      (Q P : W → Type ℓ) (m : Exec W A) (f : A → Exec W B) (u : W)
      → Q (m u).1
      → ((v : W) → Q v → P v)
      → ((a : A) (v : W) → Q v → P (f a v).1)
      → P ((m >>= f) u).1
  >>=-through Q P m f u mid stop go = continue_through Q P (m u) f mid stop go

module _ {ℓ} {W A : Type ℓ} where
  map_err_result-post :
      (P : W → Type ℓ) (f : Error → Error) (r : Result A × W) → P r.1 → P (map_err_result f r).1
  map_err_result-post P f (ok a, w) h = h
  map_err_result-post P f (err e, w) h = h

  -- A change of the error changes no state.
  pub on_error-post :
      (P : W → Type ℓ) (f : Error → Error) (m : Exec W A) (u : W) → P (m u).1 → P (on_error f m u).1
  on_error-post P f m u h = map_err_result-post P f (m u) h

  map_err_result-eq-ok :
      (f : Error → Error) (r : Result A × W) (a : A) (w : W)
      → map_err_result f r ≡ (ok a, w)
      → r ≡ (ok a, w)
  map_err_result-eq-ok f (ok b, v) a w h = h
  map_err_result-eq-ok f (err e, v) a w h = cc

  pub on_error-eq-ok :
      (f : Error → Error) (m : Exec W A) (u : W) (a : A) (w : W)
      → on_error f m u ≡ (ok a, w)
      → m u ≡ (ok a, w)
  on_error-eq-ok f m u a w h = map_err_result-eq-ok f (m u) a w h

module _ {ℓ} {W A B : Type ℓ} where
  -- A sequence whose first part is known goes on from there, or stops there.
  pub >>=-run :
      (m : Exec W A) (f : A → Exec W B) (u v : W) (a : A) → m u ≡ (ok a, v) → (m >>= f) u ≡ f a v
  >>=-run m f u v a h = ap (λ r. continue r f) h

  pub >>=-stop :
      (m : Exec W A) (f : A → Exec W B) (u v : W) (e : Error)
      → m u ≡ (err e, v)
      → (m >>= f) u ≡ (err e, v)
  >>=-stop m f u v e h = ap (λ r. continue r f) h

module _ {ℓ} {W A : Type ℓ} where
  pub on_error-run :
      (f : Error → Error) (m : Exec W A) (u v : W) (a : A)
      → m u ≡ (ok a, v)
      → on_error f m u ≡ (ok a, v)
  on_error-run f m u v a h = ap (map_err_result f) h

  pub on_error-stop :
      (f : Error → Error) (m : Exec W A) (u v : W) (e : Error)
      → m u ≡ (err e, v)
      → on_error f m u ≡ (err (f e), v)
  on_error-stop f m u v e h = ap (map_err_result f) h

  map_err_result-eq-err :
      (f : Error → Error) (r : Result A × W) (e : Error) (w : W)
      → map_err_result f r ≡ (err e, w)
      → (c : Error) × (r ≡ (err c, w))
  map_err_result-eq-err f (ok a, v) e w h = cc
  map_err_result-eq-err f (err c, v) e w h = (c, cc)

  pub on_error-eq-err :
      (f : Error → Error) (m : Exec W A) (u : W) (e : Error) (w : W)
      → on_error f m u ≡ (err e, w)
      → (c : Error) × (m u ≡ (err c, w))
  on_error-eq-err f m u e w h = map_err_result-eq-err f (m u) e w h
