-- ===== src/Api/Auth.antt =====
-- internal/api/auth.go: `authMiddleware` in front of a handler, which is any function of the request
-- and the world. `subtle.ConstantTimeCompare` is equality of the texts. `http.Error` writes the same
-- JSON text as `writeError`, with another content type, which is not modelled.
pub mod Guard
use Prim.Native.String.{len, slice, find}
use text.Mathlib.Text.{starts_with}
use hermes_manager.Prelude.{
  ℕ, ◌+◌, String, Bool, true, false, Option, none, some, error, ltb, ◌==◌, ◌&&◌, ◌||◌, not,
  if◌then◌else◌,
}
use hermes_manager.World.{World}
use hermes_manager.Api.Response.{Response, write_error}

-- What the middleware reads of a request, and the rest of it as one text.
pub record Request : Type 0 where
  pub method : String
  pub path : String
  pub authorization : String
  pub content : String

abbrev pub Handler : Type 0
Handler = Request → World → Response × World

-- `strings.SplitN(auth, " ", 2)`, `none` where it has one part.
unfoldable pub split_space : String → Option (String × String)
split_space text =
    let i = find text " " in
    if ltb i (len text) then some (slice text 0 i, slice text (i + 1) (len text)) else none

-- The three tests that let a request pass.
unfoldable pub is_open : Request → Bool
is_open req =
    (req.path == "/healthz" || req.path == "/readyz")
    || not (starts_with req.path "/v1/")
    || (req.method == "POST" && req.path == "/v1/events")

module _ (equal_fold : String → String → Bool) (token : String) (next : Handler) where
  unfoldable pub check_parts : Option (String × String) → Handler
  check_parts none req w =
      (write_error 401 (error "invalid Authorization header, expected: Bearer <token>"), w)
  check_parts (some (scheme, presented)) req w =
      if not (equal_fold scheme "Bearer")
      then (write_error 401 (error "invalid Authorization header, expected: Bearer <token>"), w)
      else if presented == token
      then next req w
      else (write_error 403 (error "invalid token"), w)

  unfoldable pub check_authorization : Handler
  check_authorization req w =
      if req.authorization == ""
      then (write_error 401 (error "missing Authorization header"), w)
      else check_parts (split_space req.authorization) req w

  -- `token` is the environment variable HERMESMANAGER_API_TOKEN.
  unfoldable pub auth_middleware : Handler
  auth_middleware req w =
      if token == ""
      then next req w
      else if is_open req
      then next req w
      else check_authorization req w
