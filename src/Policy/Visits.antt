-- ===== src/Policy/Visits.antt =====
-- internal/policy/engine.go: `matchRule`, and the order in which Go visits a rule's conditions.
use mathlib.Core.Logic.{∥∥₁_elim}
use mathlib.Core.List.{Perm, Permᴰ}
use hermes_manager.Prelude.{
  ℕ, String, ◌≡◌, ◌↔◌, refl, ◌∙◌, Bool, true, some, List, [], ◌∷◌, arith, eq_iff, All, Option-cases,
  Bool-cases, sym, subst, ◌==◌, inl, inr,
}
use hermes_manager.Policy.{
  Rule, PolicyRequest, actual_of, match_conditions, condition_holds, match_rule,
}

module _ (format_float : ℕ → String) (req : PolicyRequest) where
  Permᴰ-match_conditions :
      {cs ds : List (String × String)}
      → Permᴰ cs ds
      → match_conditions format_float cs req ≡ match_conditions format_float ds req
  unfolding match_conditions
  Permᴰ-match_conditions Permᴰ.nil = refl
  Permᴰ-match_conditions (Permᴰ.cons e p) = rw (e, Permᴰ-match_conditions p)
  Permᴰ-match_conditions (Permᴰ.swap e f) = rw (e, f) (ground arith)
  Permᴰ-match_conditions (Permᴰ.trans p q) = Permᴰ-match_conditions p ∙ Permᴰ-match_conditions q

  Bool-set : IsSet Bool
  Bool-set = hlevel

  -- Whatever the order in which the map of conditions is visited, `matchRule` gives one answer.
  pub match_conditions-perm :
      (cs ds : List (String × String))
      → Perm cs ds
      → match_conditions format_float cs req ≡ match_conditions format_float ds req
  match_conditions-perm cs ds p = ∥∥₁_elim p (Bool-set _ _) Permᴰ-match_conditions

  -- The text of the request's field that a condition's key names.
  pub data Field : String → String → Type 0 where
    model : Field "model" req.model
    user : Field "user" req.user
    team : Field "team" req.team
    tool : Field "tool" req.tool
    cost_usd : Field "cost_usd" (format_float req.cost_usd)

  actual_of-Field : (key x : String) → actual_of format_float key req ≡ some x → Field key x
  unfolding actual_of
  actual_of-Field key x h = elim (Bool-cases (key == "model")) [
    | inl e ↦ field_at key "model" req.model x model e (ground arith)
    | inr e₁ ↦ elim (Bool-cases (key == "user")) [
      | inl e ↦ field_at key "user" req.user x user e (ground arith)
      | inr e₂ ↦ elim (Bool-cases (key == "team")) [
        | inl e ↦ field_at key "team" req.team x team e (ground arith)
        | inr e₃ ↦ elim (Bool-cases (key == "tool")) [
          | inl e ↦ field_at key "tool" req.tool x tool e (ground arith)
          | inr e₄ ↦ elim (Bool-cases (key == "cost_usd")) [
            | inl e ↦
                field_at key "cost_usd" (format_float req.cost_usd) x cost_usd e (ground arith)
            | inr e₅ ↦ absurd (ground arith)
          ]
        ]
      ]
    ]
  ]
    where
      field_at :
          (key name text x : String)
          → Field name text
          → (key == name) ≡ true
          → text ≡ x
          → Field key x
      field_at key name text x f e t =
          subst (λ k. Field k x) (sym ((eq_iff key name).0 e)) (subst (λ y. Field name y) t f)

  Field-actual_of : (key x : String) → Field key x → actual_of format_float key req ≡ some x
  unfolding actual_of
  Field-actual_of _ _ model = refl
  Field-actual_of _ _ user = refl
  Field-actual_of _ _ team = refl
  Field-actual_of _ _ tool = refl
  Field-actual_of _ _ cost_usd = refl

  condition_holds-eq :
      (key expected : String)
      → (condition_holds format_float (key, expected) req ≡ true)
        ↔ (actual_of format_float key req ≡ some expected)
  unfolding condition_holds
  condition_holds-eq key expected = elim (Option-cases (actual_of format_float key req)) [
    | inl e ↦ rw e (ground arith)
    | inr (a, e) ↦ rw e (ground (arith, eq_iff a expected))
  ]

  condition_holds_iff :
      (key expected : String)
      → (condition_holds format_float (key, expected) req ≡ true) ↔ Field key expected
  condition_holds_iff key expected =
      let (there, back) = condition_holds-eq key expected in
      (λ h. actual_of-Field key expected (there h), λ f. back (Field-actual_of key expected f))

  -- A rule matches exactly when every condition's key is "model", "user", "team", "tool" or "cost_usd"
  -- and that field's text (of the cost, the text that `strconv.FormatFloat` gives) is the expected one;
  -- a rule without conditions matches every request.
  pub match_rule-All_iff :
      (rule : Rule)
      → (match_rule format_float rule req ≡ true) ↔ All (λ c. Field c.0 c.1) rule.conditions
  unfolding match_rule match_conditions
  match_rule-All_iff rule = go rule.conditions
    where
      go :
          (cs : List (String × String))
          → (match_conditions format_float cs req ≡ true) ↔ All (λ c. Field c.0 c.1) cs
      go [] = (λ _. tt, λ _. refl)
      go ((k, x) ∷ cs) = ground (arith, condition_holds_iff k x, go cs)
