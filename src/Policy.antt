-- ===== src/Policy.antt =====
-- internal/policy: the rules of the policy file, and the engine that evaluates them.
-- A float64 is its bit pattern, a number below 2 ^ 64; `strconv.FormatFloat` is the parameter
-- `format_float`. Go visits a map in any order: the conditions are a list, in the order of a visit.
-- Reading and parsing the file are the parameter `read_rules`.
pub mod FirstMatch
pub mod Visits
pub mod Reload
use hermes_manager.Prelude.{
  ℕ, String, Bool, true, false, Option, none, some, List, [], ◌∷◌, Error, errorf, plain, quoted,
  wrapf, error, Result, ok, err, ◌==◌, if◌then◌else◌,
}

pub record Rule : Type 0 where
  pub id : String
  pub action : String
  pub conditions : List (String × String)

pub record PolicyRequest : Type 0 where
  pub model : String
  pub user : String
  pub team : String
  pub tool : String
  pub cost_usd : ℕ

-- `allowed, deniedByRuleID, err`
pub record Decision : Type 0 where
  pub allowed : Bool
  pub denied_by : String
  pub error : Option Error

abbrev pub allow : Decision
allow = record { allowed = true; denied_by = ""; error = none }

abbrev pub unknown_action : Rule → Error
unknown_action rule =
    errorf (
      plain "policy: unknown action " ∷ quoted rule.action ∷ plain " in rule " ∷ plain rule.id ∷ [])

-- The switch on the action of a rule that matches.
unfoldable pub decide_action : Rule → Decision
decide_action rule =
    if rule.action == "deny"
    then record { allowed = false; denied_by = rule.id; error = none }
    else if rule.action == "allow"
    then allow
    else record { allowed = false; denied_by = rule.id; error = some (unknown_action rule) }

module _ (format_float : ℕ → String) where
  -- The switch on the condition's key; `none` is its default case.
  unfoldable pub actual_of : String → PolicyRequest → Option String
  actual_of key req =
      if key == "model"
      then some req.model
      else if key == "user"
      then some req.user
      else if key == "team"
      then some req.team
      else if key == "tool"
      then some req.tool
      else if key == "cost_usd"
      then some (format_float req.cost_usd)
      else none

  -- One round of the loop of `matchRule`: whether it goes on.
  unfoldable pub condition_holds : String × String → PolicyRequest → Bool
  condition_holds (key, expected) req = elim (actual_of key req) [
    | none ↦ false
    | some actual ↦ actual == expected
  ]

  unfoldable pub match_conditions : List (String × String) → PolicyRequest → Bool
  match_conditions [] req = true
  match_conditions (c ∷ cs) req = if condition_holds c req then match_conditions cs req else false

  unfoldable pub match_rule : Rule → PolicyRequest → Bool
  match_rule rule req = match_conditions rule.conditions req

  unfoldable pub evaluate : List Rule → PolicyRequest → Decision
  evaluate [] req = allow
  evaluate (rule ∷ rules) req =
      if match_rule rule req then decide_action rule else evaluate rules req

-- `Engine`, without its lock: an operation runs as a whole.
pub record Engine : Type 0 where
  pub rules : List Rule
  pub file_path : String

-- What the file system and `yaml.Unmarshal` make of a path: the file cannot be read, its text
-- cannot be parsed, or the rules that it holds.
pub data PolicyFile : Type 0 where
  unreadable : Error → PolicyFile
  malformed : Error → PolicyFile
  rules_of : List Rule → PolicyFile

-- `fmt.Errorf("text %s: %w", path, err)`
abbrev pub about_file : String → String → Error → Error
about_file text path cause = wrapf (plain text ∷ plain path ∷ plain ": " ∷ []) cause []

module _ (read_rules : String → PolicyFile) where
  -- The engine after the call, and the error that it returns.
  unfoldable pub load_from_file : String → Engine → Option Error × Engine
  load_from_file path e = elim (read_rules path) [
    | unreadable cause ↦ (some (about_file "policy: read file " path cause), e)
    | malformed cause ↦ (some (about_file "policy: parse YAML " path cause), e)
    | rules_of rules ↦ (none, record { rules = rules; file_path = path })
  ]

  unfoldable pub reload : Engine → Option Error × Engine
  reload e =
      if e.file_path == ""
      then (some (error "policy: no file path configured for reload"), e)
      else load_from_file e.file_path e

  unfoldable pub built : Option Error × Engine → Result Engine
  built (none, e) = ok e
  built (some cause, e) = err cause

  unfoldable pub new_engine : String → Result Engine
  new_engine file_path =
      let e : Engine = record { rules = []; file_path = file_path } in
      if file_path == "" then ok e else built (load_from_file file_path e)
