-- ===== src/Runtime.antt =====
-- internal/runtime/runtime.go: the `Runtime` interface over the state `W`, and the registry of
-- factories. A Go map is an association list in the order of one visit; the mutex is left out, an
-- operation runs as a whole.
pub mod Registry
pub mod Drivers
use hermes_manager.Prelude.{
  String, Option, none, some, List, [], ◌∷◌, Error, errorf, wrapf, plain, quoted, error, Result, ok,
  err, Exec, lookup, insert, pure, raise, on_error, ◌>>=◌, if◌then◌else◌, Bool, true, false,
  is_absent,
}
use hermes_manager.Storage.{Task, Skill, ℤ}

pub record Handle : Type 0 where
  pub runtime_name : String
  pub external_id : String

abbrev pub no_handle : Handle
no_handle = record { runtime_name = ""; external_id = "" }

pub record Runtime (W : Type 0) : Type 0 where
  pub name : String
  pub callback_url : String
  pub dispatch : Task → Skill → Exec W Handle
  -- active_count, max_capacity
  pub status : Exec W (ℤ × ℤ)

abbrev pub err_runtime_unavailable : Error
err_runtime_unavailable = error "runtime: backend unavailable"

abbrev pub err_task_timeout : Error
err_task_timeout = error "runtime: task exceeded deadline"

abbrev pub err_policy_blocked : Error
err_policy_blocked = error "runtime: task blocked by policy"

abbrev pub err_runtime_not_found : Error
err_runtime_not_found = error "runtime: unknown runtime name"

-- `fmt.Errorf("%w: %q", err, name)`
abbrev pub about_name : Error → String → Error
about_name e name = wrapf [] e (plain ": " ∷ quoted name ∷ [])

-- `fmt.Errorf("%w: text", err)`
abbrev pub with_detail : Error → String → Error
with_detail e text = wrapf [] e (plain (": ") ∷ plain text ∷ [])

abbrev pub Factory : Type 0 → Type 0
Factory W = Exec W (Runtime W)

module _ {W : Type 0} where
  -- `Register`; `none` is its panic.
  unfoldable pub register :
      String → Factory W → List (String × Factory W) → Option (List (String × Factory W))
  register name f registry = if is_absent name registry then some (insert name f registry) else none

  -- The loop of `Build` over the registry.
  unfoldable pub build_from :
      List (String × Factory W) → List (String × Runtime W) → Exec W (List (String × Runtime W))
  build_from [] runtimes = pure runtimes
  build_from ((name, factory) ∷ rest) runtimes = do
    rt ←
        on_error
          (λ e. wrapf (plain "runtime: failed to build " ∷ quoted name ∷ plain ": " ∷ []) e [])
          factory
    build_from rest (insert name rt runtimes)

  unfoldable pub build : List (String × Factory W) → Exec W (List (String × Runtime W))
  unfolding build_from
  build registry = build_from registry []

  unfoldable pub get : String → List (String × Factory W) → Result (Factory W)
  get name registry = elim (lookup name registry) [
    | none ↦ err (about_name err_runtime_not_found name)
    | some f ↦ ok f
  ]
