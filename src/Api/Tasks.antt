-- ===== src/Api/Tasks.antt =====
-- internal/api/router.go: POST /v1/tasks, GET /v1/tasks and GET /v1/tasks/{id}. A body is what
-- `json.Decoder` makes of it; a query is what `r.URL.Query().Get` gives, "" for an absent name.
pub mod Denied
pub mod Created
pub mod Listed
use Prim.Native.String.{len, find}
use hermes_manager.Prelude.{
  ℕ, String, Bool, true, false, Option, none, some, List, [], ◌∷◌, Error, errorf, error, plain,
  quoted, wrap, is_policy_denied, error_text, Result, ok, err, ◌==◌, leb, if◌then◌else◌,
}
use hermes_manager.Storage.{Task, TaskState, TaskFilter, task_state_of, ℤ}
use hermes_manager.World.{World}
use hermes_manager.Api.Response.{
  Response, write_json, write_error, task, tasks, task_created, task_dispatched,
}
use hermes_manager.Api.Server.{Library, Server}
use hermes_manager.Api.Pages.{page_limit, page_offset}
use hermes_manager.Api.TaskService.{CreateTaskRequest, CreateTaskResult, create_task}

-- `strings.Contains`
abbrev pub contains : String → String → Bool
contains text part = leb (find text part) (len text)

abbrev pub blocked_by : String → Error
blocked_by rule_id = errorf (plain "blocked by policy rule: " ∷ plain rule_id ∷ [])

module _ (lib : Library) where
  -- The branches on the error of `CreateTask`.
  unfoldable pub respond_failed : Error → Response
  respond_failed e = elim (is_policy_denied e) [
    | some rule_id ↦ write_error 403 (blocked_by rule_id)
    | none ↦
        if contains (error_text lib.quote lib.library_text e) "not found"
        then write_error 400 e
        else write_error 500 e
  ]

  unfoldable pub respond_created : CreateTaskResult → Response
  respond_created result =
      if result.external_id == ""
      then write_json 201 (task_created result.task_id result.token)
      else write_json 201
          (task_dispatched result.task_id result.token result.runtime result.external_id)

  unfoldable pub respond : Result CreateTaskResult → Response
  respond (ok result) = respond_created result
  respond (err e) = respond_failed e

  module _ (s : Server) where
    unfoldable pub answer_request : CreateTaskRequest → World → Response × World
    answer_request req w = let (result, w') = create_task lib s req w in (respond result, w')

    unfoldable pub handle_create_task : Result CreateTaskRequest → World → Response × World
    handle_create_task (err e) w = (write_error 400 (wrap "invalid request body: " e), w)
    handle_create_task (ok req) w =
        if req.skill_name == ""
        then (write_error 400 (error "skill_name is required"), w)
        else answer_request req w

    abbrev pub state_filter : String → Option TaskState
    state_filter text = if text == "" then none else some (task_state_of text)

    unfoldable pub task_filter : (String → String) → TaskFilter
    task_filter query = record {
      state = state_filter (query "state");
      limit = page_limit lib.atoi (query "limit");
      offset = page_offset lib.atoi (query "offset");
    }

    abbrev pub respond_tasks : Result (List Task) → Response
    respond_tasks (ok rows) = write_json 200 (tasks rows)
    respond_tasks (err e) = write_error 500 (wrap "failed to list tasks: " e)

    unfoldable pub handle_list_tasks : (String → String) → World → Response × World
    handle_list_tasks query w =
        let (listed, w') = s.store.list_tasks (task_filter query) w in (respond_tasks listed, w')

    abbrev pub respond_task : String → Result (Option Task) → Response
    respond_task id (ok (some t)) = write_json 200 (task t)
    respond_task id (ok none) =
        write_error 404 (errorf (plain "task " ∷ quoted id ∷ plain " not found" ∷ []))
    respond_task id (err e) = write_error 500 (wrap "failed to get task: " e)

    unfoldable pub handle_get_task : String → World → Response × World
    handle_get_task id w = let (found, w') = s.store.get_task id w in (respond_task id found, w')
