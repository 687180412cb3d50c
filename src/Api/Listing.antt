-- ===== src/Api/Listing.antt =====
-- internal/api/router.go: GET /v1/events.
use hermes_manager.Prelude.{
  ℕ, String, Option, none, some, List, wrap, Result, ok, err, ◌==◌, if◌then◌else◌,
}
use hermes_manager.Storage.{Event, EventFilter, EventType, event_type_of}
use hermes_manager.World.{World}
use hermes_manager.Api.Response.{Response, write_json, write_error, events}
use hermes_manager.Api.Server.{Library, Server}
use hermes_manager.Api.Pages.{page_limit, page_offset}

abbrev pub given : String → Option String
given text = if text == "" then none else some text

abbrev pub type_filter : String → Option EventType
type_filter text = if text == "" then none else some (event_type_of text)

abbrev pub since_filter : (String → Option ℕ) → String → Option ℕ
since_filter parse_time text = if text == "" then none else parse_time text

abbrev pub respond_events : Result (List Event) → Response
respond_events (ok rows) = write_json 200 (events rows)
respond_events (err e) = write_error 500 (wrap "failed to list events: " e)

module _ (lib : Library) (s : Server) where
  unfoldable pub event_filter : (String → String) → EventFilter
  event_filter query = record {
    task_id = given (query "task_id");
    event_type = type_filter (query "type");
    since = since_filter lib.parse_time (query "since");
    limit = page_limit lib.atoi (query "limit");
    offset = page_offset lib.atoi (query "offset");
  }

  unfoldable pub handle_list_events : (String → String) → World → Response × World
  handle_list_events query w =
      let (listed, w') = s.store.list_events (event_filter query) w in (respond_events listed, w')
