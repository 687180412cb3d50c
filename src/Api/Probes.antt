-- ===== src/Api/Probes.antt =====
-- internal/api/health.go.
use hermes_manager.Prelude.{[], ◌∷◌, Result, ok, err, Exec}
use hermes_manager.World.{World}
use hermes_manager.Api.Response.{Response, write_json, probe}

unfoldable pub handle_healthz : World → Response × World
handle_healthz w = (write_json 200 (probe (("status", "ok") ∷ [])), w)

abbrev pub answer_ping : Result (Unit {0}) → Response
answer_ping (ok _) = write_json 200 (probe (("ready", "true") ∷ []))
answer_ping (err e) =
    write_json 503 (probe (("ready", "false") ∷ ("reason", "database not ready") ∷ []))

-- `ping` is the store's.
unfoldable pub handle_readyz : Exec World Unit → World → Response × World
handle_readyz ping w = let (result, w') = ping w in (answer_ping result, w')

unfoldable pub handle_readyz_stub : World → Response × World
handle_readyz_stub w = (write_json 200 (probe (("ready", "true") ∷ ("mode", "dev-stub") ∷ [])), w)
