-- ===== src/Prelude/Errors.antt =====
-- Go's error values by the way they are made: a formatted text, a text around a wrapped error
-- (`%w`), `PolicyDeniedError` of internal/api/taskservice.go, and a library's own error value.
use Prim.Native.String.{String, []}
use Prim.Native.String
use mathlib.Core.Option.{Option, none, some}
use mathlib.Core.List.{List, [] as nil, ◌∷◌}

-- A piece of a format: its own text or an argument of `%s`, and an argument of `%q`.
pub data Piece : Type 0 where
  plain : String → Piece
  quoted : String → Piece

pub data Error : Type 0 where
  errorf : List Piece → Error
  wrapf : List Piece → Error → List Piece → Error
  policy_denied : String → Error
  library : String → Error

-- `fmt.Errorf("text: %w", err)`, and the text of an error that has no argument.
abbrev pub wrap : String → Error → Error
wrap text e = wrapf (plain text ∷ nil) e nil

abbrev pub error : String → Error
error text = errorf (plain text ∷ nil)

-- `errors.As(err, &pde)` for a `*PolicyDeniedError`, through the wrapped errors.
unfoldable pub is_policy_denied : Error → Option String
is_policy_denied (errorf ps) = none
is_policy_denied (wrapf ps e qs) = is_policy_denied e
is_policy_denied (policy_denied rule_id) = some rule_id
is_policy_denied (library name) = none

module _ (quote : String → String) (library_text : String → String) where
  render : List Piece → String
  render nil = []
  render (plain s ∷ ps) = String.◌++◌ s (render ps)
  render (quoted s ∷ ps) = String.◌++◌ (quote s) (render ps)

  -- `err.Error()`, over `strconv.Quote` and the texts of the libraries' errors.
  unfoldable pub error_text : Error → String
  unfolding render
  error_text (library name) = library_text name
  error_text (errorf ps) = render ps
  error_text (wrapf ps e qs) = String.◌++◌ (render ps) (String.◌++◌ (error_text e) (render qs))
  error_text (policy_denied rule_id) = String.◌++◌ "blocked by policy rule: " rule_id
