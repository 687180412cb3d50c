-- ===== src/Api/Routes.antt =====
-- internal/api/router.go: the routes of `Handler` and `NewRouter`. `http.ServeMux`, the decoding of a
-- request and the embedded web pages are parameters. The wrapper around the routes, which adds a
-- request identifier and a log line, is in Middleware and not part of the answers here; the cutting off
-- of a body is part of its decoding.
pub mod Outcome
pub mod Safe
pub mod Kept
use Prim.Native.String
use hermes_manager.Prelude.{
  String, List, [], ◌∷◌, ◌++◌, errorf, plain, Exec, Result, if◌then◌else◌, ◌==◌,
}
use hermes_manager.World.{World}
use hermes_manager.Api.Response.{Response, write_error}
use hermes_manager.Api.Server.{Library, Server}
use hermes_manager.Api.Auth.{Request, Handler, auth_middleware}
use hermes_manager.Api.Probes.{handle_healthz, handle_readyz, handle_readyz_stub}
use hermes_manager.Api.Skills.{handle_list_skills, handle_get_skill}
use hermes_manager.Api.TaskService.{CreateTaskRequest}
use hermes_manager.Api.Tasks.{handle_create_task, handle_list_tasks, handle_get_task}
use hermes_manager.Api.Events.{EventPost, handle_create_event}
use hermes_manager.Api.Listing.{handle_list_events}

pub record Route : Type 0 where
  pub method : String
  pub pattern : String
  pub handler : Handler

-- What the routes call of net/http, of the decoder, and of the embedded pages.
pub record Http : Type 0 where
  -- `http.ServeMux`
  pub mux : List Route → Handler
  -- `r.PathValue` and `r.URL.Query().Get`
  pub path_value : Request → String → String
  pub query : Request → String → String
  -- `json.Decoder` on the body, cut off behind 1 MB
  pub task_body : Request → Result CreateTaskRequest
  pub event_post : Request → EventPost
  -- `web.Handler()`
  pub pages : Handler

module _ (http : Http) where
  abbrev pub mount_spa : List Route → List Route
  mount_spa routes =
      routes ++ (record { method = "GET"; pattern = "/{path...}"; handler = http.pages } ∷ [])

  -- `stub`
  unfoldable pub stub : String → Handler
  stub route req w = (write_error 501 (errorf (plain "not implemented: " ∷ plain route ∷ [])), w)

  abbrev pub stub_route : String → String → Route
  stub_route method pattern = record {
    method = method;
    pattern = pattern;
    handler = stub (String.◌++◌ method (String.◌++◌ " " pattern));
  }

  unfoldable pub new_router : Handler
  new_router = http.mux (
      mount_spa (
        record { method = "GET"; pattern = "/healthz"; handler = λ req. handle_healthz }
        ∷ record { method = "GET"; pattern = "/readyz"; handler = λ req. handle_readyz_stub }
        ∷ stub_route "GET" "/v1/skills"
        ∷ stub_route "GET" "/v1/skills/{name}"
        ∷ stub_route "POST" "/v1/tasks"
        ∷ stub_route "GET" "/v1/tasks"
        ∷ stub_route "GET" "/v1/tasks/{id}"
        ∷ stub_route "POST" "/v1/events"
        ∷ stub_route "GET" "/v1/events"
        ∷ []))

  module _ (lib : Library) (s : Server) (ping : Exec World Unit) where
    abbrev pub routes : List Route
    routes = mount_spa (
        record { method = "GET"; pattern = "/healthz"; handler = λ req. handle_healthz }
        ∷ record { method = "GET"; pattern = "/readyz"; handler = λ req. handle_readyz ping }
        ∷ record { method = "GET"; pattern = "/v1/skills"; handler = λ req. handle_list_skills s }
        ∷ record {
          method = "GET";
          pattern = "/v1/skills/{name}";
          handler = λ req. handle_get_skill s (http.path_value req "name");
        }
        ∷ record {
          method = "POST";
          pattern = "/v1/tasks";
          handler = λ req. handle_create_task lib s (http.task_body req);
        }
        ∷ record {
          method = "GET";
          pattern = "/v1/tasks";
          handler = λ req. handle_list_tasks lib s (http.query req);
        }
        ∷ record {
          method = "GET";
          pattern = "/v1/tasks/{id}";
          handler = λ req. handle_get_task lib s (http.path_value req "id");
        }
        ∷ record {
          method = "POST";
          pattern = "/v1/events";
          handler = λ req. handle_create_event lib s (http.event_post req);
        }
        ∷ record {
          method = "GET";
          pattern = "/v1/events";
          handler = λ req. handle_list_events lib s (http.query req);
        }
        ∷ [])

    -- `Handler`; `token` is HERMESMANAGER_API_TOKEN.
    unfoldable pub handler : String → Handler
    handler token = auth_middleware lib.equal_fold token (http.mux routes)
