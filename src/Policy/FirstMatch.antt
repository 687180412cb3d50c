-- ===== src/Policy/FirstMatch.antt =====
-- internal/policy/engine.go: `Evaluate`, and a description of it by the first rule that matches.
use hermes_manager.Prelude.{
  ℕ, String, ◌≡◌, ◌≢◌, ◌↔◌, refl, ap, true, false, none, some, List, [], ◌∷◌, ◌++◌, arith, eq_iff,
  All, Bool-cases, inl, inr, ◌==◌,
}
use hermes_manager.Policy.{
  Rule, PolicyRequest, Decision, allow, match_rule, decide_action, unknown_action, evaluate,
}

-- The outcome that a rule's action stands for, by the text of the action.
pub data ActsAs (rule : Rule) : Decision → Type 0 where
  denies :
      rule.action ≡ "deny"
      → ActsAs rule (record { allowed = false; denied_by = rule.id; error = none })
  allows : rule.action ≡ "allow" → ActsAs rule allow
  fails :
      rule.action ≢ "deny"
      → rule.action ≢ "allow"
      → ActsAs rule
          (record { allowed = false; denied_by = rule.id; error = some (unknown_action rule) })

module _ (format_float : ℕ → String) (req : PolicyRequest) where
  -- The description of the evaluation: a rule that does not match is passed over, the first that
  -- does decides, and at the end of the list the request is allowed.
  pub data Decides : List Rule → Decision → Type 0 where
    at_end : Decides [] allow
    passed_over :
        {rule : Rule} {rules : List Rule} {d : Decision}
        → match_rule format_float rule req ≡ false
        → Decides rules d
        → Decides (rule ∷ rules) d
    decided_by :
        {rule : Rule} {rules : List Rule} {d : Decision}
        → match_rule format_float rule req ≡ true
        → ActsAs rule d
        → Decides (rule ∷ rules) d

decide_action-ActsAs : (rule : Rule) → ActsAs rule (decide_action rule)
unfolding decide_action
decide_action-ActsAs rule = elim (Bool-cases (rule.action == "deny")) [
  | inl d ↦ rw d (denies ((eq_iff _ _).0 d))
  | inr nd ↦ elim (Bool-cases (rule.action == "allow")) [
    | inl a ↦ rw (nd, a) (allows ((eq_iff _ _).0 a))
    | inr na ↦
        rw (nd, na)
          (fails (λ p. cc (nd, (eq_iff rule.action "deny").1 p))
            (λ p. cc (na, (eq_iff rule.action "allow").1 p)))
  ]
]

ActsAs-decide_action : (rule : Rule) (d : Decision) → ActsAs rule d → decide_action rule ≡ d
unfolding decide_action
ActsAs-decide_action rule _ (denies h) = rw ((eq_iff _ _).1 h) refl
ActsAs-decide_action rule _ (allows h) =
    ground (arith, ap (λ a. a == "deny") h, eq_iff rule.action "allow")
ActsAs-decide_action rule _ (fails h k) =
    ground (arith, eq_iff rule.action "deny", eq_iff rule.action "allow")

module _ (format_float : ℕ → String) (req : PolicyRequest) where
  evaluate_sound :
      (rules : List Rule) → Decides format_float req rules (evaluate format_float rules req)
  unfolding evaluate
  evaluate_sound [] = at_end
  evaluate_sound (rule ∷ rules) = elim (Bool-cases (match_rule format_float rule req)) [
    | inl m ↦ rw m (decided_by m (decide_action-ActsAs rule))
    | inr n ↦ rw n (passed_over n (evaluate_sound rules))
  ]

  evaluate_complete :
      (rules : List Rule) (d : Decision)
      → Decides format_float req rules d
      → evaluate format_float rules req ≡ d
  unfolding evaluate
  evaluate_complete _ _ at_end = refl
  evaluate_complete (rule ∷ rules) d (passed_over m h) = rw m (evaluate_complete rules d h)
  evaluate_complete (rule ∷ rules) d (decided_by m h) = rw m (ActsAs-decide_action rule d h)

  -- For every list of rules and every request, `Evaluate` returns a decision exactly when the
  -- first-match description gives it.
  pub evaluate-Decides_iff :
      (rules : List Rule) (d : Decision)
      → (evaluate format_float rules req ≡ d) ↔ Decides format_float req rules d
  evaluate-Decides_iff rules d = (λ e. rw e at (evaluate_sound rules), evaluate_complete rules d)

  -- Behind the first rule that matches, the rules do not count: with none of `before` matching and
  -- `rule` matching, the decision is that of the action of `rule`, whatever stands after.
  pub evaluate-append_first :
      (before after : List Rule) (rule : Rule)
      → All (λ r. match_rule format_float r req ≡ false) before
      → match_rule format_float rule req ≡ true
      → ActsAs rule (evaluate format_float (before ++ rule ∷ after) req)
  unfolding evaluate
  evaluate-append_first [] after rule none_match m = rw m (decide_action-ActsAs rule)
  evaluate-append_first (r ∷ rs) after rule (n, ns) m =
      rw n (evaluate-append_first rs after rule ns m)
