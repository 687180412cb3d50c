-- ===== src/Api/Middleware.antt =====
-- internal/api/middleware.go, with `wrapMiddleware` of internal/api/router.go but for `limitBody`: the
-- request identifier and the log line around a handler. `uuid` is `uuid.New().String()`. The duration
-- is left out.
use hermes_manager.Prelude.{ℕ, String, ◌≡◌, refl, ◌==◌, if◌then◌else◌}
use hermes_manager.World.{World}
use hermes_manager.Api.Response.{Response}
use hermes_manager.Api.Auth.{Request, Handler}

-- The line that `LoggingMiddleware` writes under the request's identifier.
pub record LogEntry : Type 0 where
  pub request_id : String
  pub method : String
  pub path : String
  pub status : ℕ

-- An answer with its header "X-Request-ID", and the line of the log.
pub record Wrapped : Type 0 where
  pub request_id : String
  pub response : Response
  pub entry : LogEntry

-- `X-Request-ID` of the request, or a new identifier where it is empty.
unfoldable pub request_id_of : String → String → String
request_id_of header uuid = if header == "" then uuid else header

-- The status of the `statusWriter` is the one that the handler has written.
unfoldable pub logging_middleware :
    Handler → String → Request → World → (Response × LogEntry) × World
logging_middleware next id req w =
    let (response, w') = next req w in
    (
      (
        response,
        record { request_id = id; method = req.method; path = req.path; status = response.status },
      ),
      w',
    )

unfoldable pub request_id_middleware :
    (String → Request → World → (Response × LogEntry) × World)
    → String
    → String
    → Request
    → World
    → Wrapped × World
request_id_middleware next header uuid req w =
    let id = request_id_of header uuid in
    let (answer, w') = next id req w in
    (record { request_id = id; response = answer.0; entry = answer.1 }, w')

unfoldable pub wrap_middleware : Handler → String → String → Request → World → Wrapped × World
wrap_middleware next = request_id_middleware (logging_middleware next)

-- The wrapped handler answers as the handler does, leaves the same world, and logs the status of the
-- answer under the identifier that it sends back.
pub wrap_middleware_lem :
    (next : Handler) (header uuid : String) (req : Request) (w : World)
    → let (wrapped, w') = wrap_middleware next header uuid req w in
      (wrapped.response ≡ (next req w).0)
      × (w' ≡ (next req w).1)
      × (wrapped.entry.status ≡ wrapped.response.status)
      × (wrapped.entry.request_id ≡ wrapped.request_id)
unfolding wrap_middleware request_id_middleware logging_middleware
wrap_middleware_lem next header uuid req w = (refl, refl, refl, refl)
