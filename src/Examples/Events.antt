-- ===== src/Examples/Events.antt =====
-- The handlers and the middleware on small inputs.
use mathlib.Core.Option
use hermes_manager.Prelude.{
  ◌==◌, if◌then◌else◌, String, ◌≡◌, ◌≢◌, refl, ap, ◌⊎◌, true, false, some, [], ◌∷◌, Result, ok,
  lookup, insert, adjust, is_absent,
}
use hermes_manager.Storage.{moved, completed, event_type_of}
use hermes_manager.World.{World}
use hermes_manager.Policy.{
  evaluate, match_rule, match_conditions, condition_holds, actual_of, decide_action,
}
use hermes_manager.Postgres.{
  get_skill, update_task_state, set_state, is_known_state, append_event, insert_event,
  is_known_type, verify_agent_token, revoke_agent_token, accepts,
}
use hermes_manager.Postgres.Statement.{statement}
use hermes_manager.Api.Response.{write_json, write_error, event_created, tasks}
use hermes_manager.Api.Auth.{Request, Handler, is_open, auth_middleware}
use hermes_manager.Api.Auth.Guard.{IsRefused, IsPassed, auth_middleware_guards}
use hermes_manager.Api.TaskService.{CreateTaskRequest, CreateTaskResult, policy_request}
use hermes_manager.Api.TaskService.Success.{IsCreated, scheduler_of}
use hermes_manager.Api.Tasks.{
  blocked_by, respond, respond_created, answer_request, handle_create_task, handle_list_tasks,
}
use hermes_manager.Api.Tasks.Denied.{denial, handle_create_task-denied}
use hermes_manager.Api.Tasks.Created.{handle_create_task-IsCreated}
use hermes_manager.Api.Events.{
  CreateEventRequest, EventPost, bearer_token, handle_create_event, with_body, verified,
  after_verification, record_event, event_id, store_event, apply_effect, set_task_state, effect_of,
  finishes, new_event,
}
use hermes_manager.Api.Events.Access.{Ends, IsAuthorized, handle_create_event-Ends}
use hermes_manager.Api.Events.Transitions.{IsClosed, run_posts, run_posts-IsClosed}
use hermes_manager.Api.Events.Accepted.{created_event, finishing_event}
use hermes_manager.Examples.Data.{
  library_functions, echo, world_of, busy_db, local_only, deny_guests,
}
use hermes_manager.Examples.Requests.{
  rules, the_server, request_of, created_run, local_only-AllKeepTables, fresh_world,
}

abbrev finish_request : String → CreateEventRequest
finish_request task_id = record {
  id = "e1";
  task_id = task_id;
  type = "task.completed";
  payload = "{}";
}

abbrev finish_post : String → EventPost
finish_post task_id = record { authorization = "Bearer secret"; body = ok (finish_request task_id) }

abbrev busy : World
busy = world_of busy_db

handle_create_event-Ends_example :
    Ends library_functions
      (scheduler_of (some local_only))
      rules
      (finish_post "t1")
      busy
      (handle_create_event library_functions the_server (finish_post "t1") busy)
handle_create_event-Ends_example =
    handle_create_event-Ends library_functions (scheduler_of (some local_only)) rules
      (finish_post "t1") busy

t2-IsClosed : IsClosed "t2" busy.db
unfolding lookup
t2-IsClosed = (record { token_hash = "#other"; revoked = true }, refl, refl)

run_posts-IsClosed_example :
    (lookup "t2"
        (run_posts library_functions
          (scheduler_of (some local_only))
          rules
          (finish_post "t2" ∷ finish_post "t1" ∷ [])
          busy).db.tasks
      ≡ lookup "t2" busy.db.tasks)
    × IsClosed "t2"
        (run_posts library_functions
          (scheduler_of (some local_only))
          rules
          (finish_post "t2" ∷ finish_post "t1" ∷ [])
          busy).db
run_posts-IsClosed_example =
    run_posts-IsClosed library_functions (scheduler_of (some local_only)) rules "t2"
      (finish_post "t2" ∷ finish_post "t1" ∷ []) busy t2-IsClosed

completed_effect : effect_of (event_type_of "task.completed") ≡ finishes completed
unfolding effect_of
completed_effect = refl

finish_answer :
    (handle_create_event library_functions the_server (finish_post "t1") busy).0.status ≡ 201
unfolding handle_create_event bearer_token with_body verified after_verification record_event
    event_id store_event apply_effect set_task_state effect_of verify_agent_token accepts
    append_event insert_event is_known_type update_task_state set_state is_known_state
    revoke_agent_token statement lookup is_absent insert adjust
finish_answer = refl

finishing_event_example :
    (lookup "t1"
        (handle_create_event library_functions the_server (finish_post "t1") busy).1.db.tasks
      ≡ Option.map (moved completed 100) (lookup "t1" busy.db.tasks))
    × IsClosed "t1" (handle_create_event library_functions the_server (finish_post "t1") busy).1.db
finishing_event_example =
    finishing_event library_functions (scheduler_of (some local_only)) rules (finish_post "t1")
      (finish_request "t1") completed busy refl refl completed_effect finish_answer

created_event_example :
    (req : CreateEventRequest) × IsAuthorized library_functions (finish_post "t1") req busy
    × (id : String) × ((handle_create_event library_functions the_server (finish_post "t1") busy).0
        ≡ write_json 201 (event_created id))
    × (req.id ≢ "" → id ≡ req.id)
    × (is_absent id busy.db.events ≡ true)
    × (lookup id
          (handle_create_event library_functions the_server (finish_post "t1") busy).1.db.events
        ≡ some (new_event library_functions the_server req id busy.now))
created_event_example =
    created_event library_functions (scheduler_of (some local_only)) rules (finish_post "t1") busy
      finish_answer

abbrev list_request : Request
list_request = record {
  method = "GET";
  path = "/v1/tasks";
  authorization = "bearer key";
  content = "";
}

abbrev list_handler : Handler
list_handler req w = handle_list_tasks library_functions the_server (λ name. "") w

list_protected : is_open list_request ≡ false
unfolding is_open
list_protected = refl

auth_middleware_guards_example :
    IsRefused
      (auth_middleware library_functions.equal_fold "key" list_handler list_request busy)
      busy
    ⊎ IsPassed library_functions.equal_fold "key" list_handler list_request busy
auth_middleware_guards_example =
    auth_middleware_guards library_functions.equal_fold "key" list_handler list_request busy refl
      list_protected

guest_denied :
    evaluate library_functions.format_float
      (deny_guests ∷ [])
      (policy_request (request_of "guest") echo)
    ≡ denial "no-guests"
unfolding evaluate match_rule match_conditions condition_holds actual_of decide_action
guest_denied = refl

echo_found : get_skill "echo" fresh_world ≡ (ok (some echo), fresh_world)
unfolding get_skill statement lookup
echo_found = refl

handle_create_task-denied_example :
    handle_create_task library_functions the_server (ok (request_of "guest")) fresh_world
    ≡ (write_error 403 (blocked_by "no-guests"), fresh_world)
handle_create_task-denied_example =
    handle_create_task-denied library_functions the_server (request_of "guest") echo
      (deny_guests ∷ []) "no-guests" fresh_world fresh_world refl refl echo_found guest_denied

answers_created :
    (handle_create_task library_functions the_server (ok (request_of "ann")) fresh_world).0.status
    ≡ 201
unfolding handle_create_task answer_request respond respond_created
answers_created =
    ap (λ (r : Result CreateTaskResult × World). (respond library_functions r.0).status) created_run

handle_create_task-IsCreated_example :
    (req : CreateTaskRequest) × (result : CreateTaskResult) × (ok (request_of "ann") ≡ ok req)
    × ((handle_create_task library_functions the_server (ok (request_of "ann")) fresh_world).0
        ≡ respond_created library_functions result)
    × IsCreated library_functions rules
        (some local_only)
        req
        result
        fresh_world
        (handle_create_task library_functions the_server (ok (request_of "ann")) fresh_world).1
handle_create_task-IsCreated_example =
    handle_create_task-IsCreated library_functions rules (some local_only) (ok (request_of "ann"))
      fresh_world local_only-AllKeepTables answers_created

-- GET /v1/tasks?state=running
abbrev running_query : String → String
running_query name = if name == "state" then "running" else ""
