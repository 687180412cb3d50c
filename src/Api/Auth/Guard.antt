-- ===== src/Api/Auth/Guard.antt =====
-- What `authMiddleware` lets through.
use Prim.Native.String.{len, slice, find}
use Prim.Native.String
use text.Mathlib.TextFind.{find_cases}
use text.Mathlib.TextPositions.{len-append, slice-append_left, slice-append_middle}
use text.Mathlib.TextLemmas.{append_assoc, append-nil}
use hermes_manager.Prelude.{
  ◌+◌, String, ◌≡◌, refl, ◌∙◌, sym, ap, ap₂, subst, ◌⊎◌, inl, inr, Bool, true, false, Option, none,
  some, ltb, ◌==◌, eq_iff, Bool-cases, arith,
}
use hermes_manager.World.{World}
use hermes_manager.Api.Response.{Response}
use hermes_manager.Api.Auth.{
  Request, Handler, split_space, is_open, check_parts, check_authorization, auth_middleware,
}

infixr 10 ◌++◌
abbrev pub ◌++◌ : String → String → String
◌++◌ a b = String.◌++◌ a b

-- The parts around the first space.
slices :
    (u v : String)
    → (slice (u ++ (" " ++ v)) 0 (len u) ≡ u)
      × (slice (u ++ (" " ++ v)) (len u + 1) (len (u ++ (" " ++ v))) ≡ v)
slices u v =
    let whole : u ++ (" " ++ v) ≡ (u ++ " ") ++ (v ++ "") =
      sym (append_assoc u " " v) ∙ ap (λ x. (u ++ " ") ++ x) (sym (append-nil v)) in
    let first : len (u ++ " ") ≡ len u + 1 = len-append u " " in
    let all : len (u ++ (" " ++ v)) ≡ len (u ++ " ") + len v =
      ap len (sym (append_assoc u " " v)) ∙ len-append (u ++ " ") v in
    (
      slice-append_left u (" " ++ v),
      ap₂ (λ t n. slice t n (len (u ++ (" " ++ v)))) whole (sym first)
          ∙ ap (λ n. slice ((u ++ " ") ++ (v ++ "")) (len (u ++ " ")) n) all
          ∙ slice-append_middle (u ++ " ") v "",
    )

-- A text that has been split is its parts around a space.
split_space-joins : (text a b : String) → split_space text ≡ some (a, b) → text ≡ a ++ (" " ++ b)
unfolding split_space
split_space-joins text a b h = elim (Bool-cases (ltb (find text " ") (len text))) [
  | inr miss ↦ cc (rw (miss, split_space) at h)
  | inl hit ↦
      let first : slice text 0 (find text " ") ≡ a = cc (rw (hit, split_space) at h) in
      let second : slice text (find text " " + 1) (len text) ≡ b =
        cc (rw (hit, split_space) at h) in
      elim (find_cases text " ") [
        | inr missing ↦ absurd (ground (arith, missing, hit))
        | inl (u, v, whole, at) ↦
            let (left, right) = slices u v in
            let a_is : a ≡ u = sym first ∙ ap₂ (λ t n. slice t 0 n) whole at ∙ left in
            let b_is : b ≡ v = sym second ∙ ap₂ (λ t n. slice t (n + 1) (len t)) whole at ∙ right in
            whole ∙ sym (ap₂ (λ x y. x ++ (" " ++ y)) a_is b_is)
      ]
]

-- A refusal leaves the world as it was.
pub record IsRefused (result : Response × World) (w : World) : Type 0 where
  pub status : (result.0.status ≡ 401) ⊎ (result.0.status ≡ 403)
  pub world : result.1 ≡ w

module _ (equal_fold : String → String → Bool) (token : String) (next : Handler) where
  -- The request was handed on, with the token behind the word "Bearer" in any case.
  pub record IsPassed (req : Request) (w : World) : Type 0 where
    pub scheme : String
    pub bearer : equal_fold scheme "Bearer" ≡ true
    pub header : req.authorization ≡ scheme ++ (" " ++ token)
    pub handed_on : auth_middleware equal_fold token next req w ≡ next req w

  refused : {e : Response} (w : World) → (e.status ≡ 401) ⊎ (e.status ≡ 403) → IsRefused (e, w) w
  refused w status = record { status = status; world = refl }

  check_parts-cases :
      (parts : Option (String × String)) (req : Request) (w : World)
      → IsRefused (check_parts equal_fold token next parts req w) w
        ⊎ ((scheme : String) × (equal_fold scheme "Bearer" ≡ true)
            × (parts ≡ some (scheme, token))
            × (check_parts equal_fold token next parts req w ≡ next req w))
  unfolding check_parts
  check_parts-cases none req w = inl (refused w (inl refl))
  check_parts-cases (some (scheme, presented)) req w =
      elim (Bool-cases (equal_fold scheme "Bearer")) [
        | inr other ↦ inl (rw (other, check_parts) (refused w (inl refl)))
        | inl bearer ↦ elim (Bool-cases (presented == token)) [
          | inr wrong ↦ inl (rw (bearer, check_parts) (rw (wrong) (refused w (inr refl))))
          | inl same ↦
              let e : presented ≡ token = ground (arith, eq_iff presented token) in
              inr (
                scheme,
                bearer,
                ap (λ p. some (scheme, p)) e,
                rw (bearer, check_parts) (rw same refl),
              )
        ]
      ]

  -- With an API token configured, a request that is not open is either refused with 401 or 403, the
  -- world left as it was, or handed on, and then its header has the scheme "Bearer" in any case and
  -- carries exactly the configured token.
  pub auth_middleware_guards :
      (req : Request) (w : World)
      → (token == "") ≡ false
      → is_open req ≡ false
      → IsRefused (auth_middleware equal_fold token next req w) w ⊎ IsPassed req w
  unfolding auth_middleware check_authorization
  auth_middleware_guards req w configured protected =
      let shut : auth_middleware equal_fold token next req w
          ≡ check_authorization equal_fold token next req w =
        rw (configured, auth_middleware) (rw (protected) refl) in
      elim (Bool-cases (req.authorization == "")) [
        | inl empty ↦ inl (
            subst (λ r. IsRefused r w) (sym shut)
              (rw (empty, check_authorization) (refused w (inl refl))))
        | inr present ↦
            let on : auth_middleware equal_fold token next req w
                ≡ check_parts equal_fold token next (split_space req.authorization) req w =
              shut ∙ rw (present, check_authorization) refl in
            elim (check_parts-cases (split_space req.authorization) req w) [
              | inl refusal ↦ inl (subst (λ r. IsRefused r w) (sym on) refusal)
              | inr (scheme, bearer, header, passed) ↦ inr (record {
                scheme = scheme;
                bearer = bearer;
                header = split_space-joins req.authorization scheme token header;
                handed_on = on ∙ passed;
              })
            ]
      ]
