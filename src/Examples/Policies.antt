-- ===== src/Examples/Policies.antt =====
-- The policy engine on small inputs.
use mathlib.Core.List.Perm
use hermes_manager.Prelude.{
  ℕ, if◌then◌else◌, String, ◌≡◌, ◌↔◌, refl, true, false, none, some, [], ◌∷◌, ◌++◌, ok, error, All,
  ◌==◌,
}
use hermes_manager.Policy.{
  Rule, PolicyRequest, Engine, PolicyFile, rules_of, unreadable, actual_of, condition_holds,
  match_conditions, match_rule, evaluate, about_file, load_from_file, reload, built, new_engine,
}
use hermes_manager.Policy.FirstMatch.{ActsAs, Decides, evaluate-Decides_iff, evaluate-append_first}
use hermes_manager.Policy.Visits.{Field, match_conditions-perm, match_rule-All_iff}
use hermes_manager.Policy.Reload.{reload_keeps, reload-new_engine}
use hermes_manager.Examples.Data.{library_functions, deny_guests}

abbrev guest_request : PolicyRequest
guest_request = record { model = "small"; user = "guest"; team = "ops"; tool = ""; cost_usd = 0 }

abbrev allow_small : Rule
allow_small = record { id = "small"; action = "allow"; conditions = ("model", "small") ∷ [] }

abbrev allow_large : Rule
allow_large = record { id = "large"; action = "allow"; conditions = ("model", "large") ∷ [] }

abbrev format : ℕ → String
format = library_functions.format_float

evaluate-Decides_iff_example :
    (evaluate format (deny_guests ∷ allow_small ∷ []) guest_request
      ≡ record { allowed = false; denied_by = "no-guests"; error = none })
    ↔ Decides format guest_request
        (deny_guests ∷ allow_small ∷ [])
        (record { allowed = false; denied_by = "no-guests"; error = none })
evaluate-Decides_iff_example =
    evaluate-Decides_iff format guest_request (deny_guests ∷ allow_small ∷ [])
      (record { allowed = false; denied_by = "no-guests"; error = none })

large_passes : match_rule format allow_large guest_request ≡ false
unfolding match_rule match_conditions condition_holds actual_of
large_passes = refl

small_matches : match_rule format allow_small guest_request ≡ true
unfolding match_rule match_conditions condition_holds actual_of
small_matches = refl

evaluate-append_first_example :
    ActsAs allow_small
      (evaluate format ((allow_large ∷ []) ++ allow_small ∷ deny_guests ∷ []) guest_request)
evaluate-append_first_example =
    evaluate-append_first format guest_request (allow_large ∷ []) (deny_guests ∷ []) allow_small
      (large_passes, tt) small_matches

match_conditions-perm_example :
    match_conditions format (("user", "guest") ∷ ("team", "ops") ∷ []) guest_request
    ≡ match_conditions format (("team", "ops") ∷ ("user", "guest") ∷ []) guest_request
match_conditions-perm_example =
    match_conditions-perm format guest_request (("user", "guest") ∷ ("team", "ops") ∷ [])
      (("team", "ops") ∷ ("user", "guest") ∷ []) (Perm.swap ("team", "ops") ("user", "guest") [])

match_rule-All_iff_example :
    (match_rule format deny_guests guest_request ≡ true)
    ↔ All {A = String × String} (λ c. Field format guest_request c.0 c.1) (("user", "guest") ∷ [])
match_rule-All_iff_example = match_rule-All_iff format guest_request deny_guests

-- One file is there.
abbrev files : String → PolicyFile
files path =
    if path == "policy.yaml" then rules_of (deny_guests ∷ []) else unreadable (error "no such file")

abbrev loaded : Engine
loaded = record { rules = deny_guests ∷ []; file_path = "policy.yaml" }

abbrev lost : Engine
lost = record { rules = deny_guests ∷ []; file_path = "gone.yaml" }

reload_fails :
    (reload files lost).0
    ≡ some (about_file "policy: read file " "gone.yaml" (error "no such file"))
unfolding reload load_from_file
reload_fails = refl

reload_keeps_example : (reload files lost).1 ≡ lost
reload_keeps_example =
    reload_keeps files lost (about_file "policy: read file " "gone.yaml" (error "no such file"))
      reload_fails

new_engine_made : new_engine files "policy.yaml" ≡ ok loaded
unfolding new_engine load_from_file built
new_engine_made = refl

reload-new_engine_example :
    (loaded.file_path ≡ "policy.yaml") × (reload files loaded ≡ (none, loaded))
reload-new_engine_example = reload-new_engine files "policy.yaml" loaded (λ e. cc) new_engine_made
