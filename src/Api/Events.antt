-- ===== src/Api/Events.antt =====
-- internal/api/router.go: POST /v1/events and GET /v1/events.
pub mod Steps
pub mod Access
pub mod Transitions
pub mod Tokens
pub mod Accepted
pub mod Live
use Prim.Native.String.{len, slice}
use hermes_manager.Prelude.{
  ℕ, String, Bool, true, false, Option, none, some, List, [], ◌∷◌, Error, error, wrap, Result, ok,
  err, Exec, pure, raise, lift, on_error, attempt, ◌>>=◌, ◌>>◌, ◌==◌, ltb, not, ◌||◌, if◌then◌else◌,
}
use hermes_manager.Storage.{
  TaskState, running, completed, failed, timeout, EventType, event_type_of, task_started,
  task_llm_call, task_tool_call, task_policy_blocked, task_completed, task_failed, task_timeout,
  Event,
}
use hermes_manager.World.{World}
use hermes_manager.Api.Response.{Response, write_json, write_error, event_created}
use hermes_manager.Api.Server.{Library, Server, generate_id}
use hermes_manager.Api.TaskService.{clock}

pub record CreateEventRequest : Type 0 where
  pub id : String
  pub task_id : String
  pub type : String
  pub payload : String

-- The part of the request that the handler reads: the header, and what `json.Decoder` makes of the
-- body.
pub record EventPost : Type 0 where
  pub authorization : String
  pub body : Result CreateEventRequest

-- `len(token) < 8 || token[:7] != "Bearer "`; the rest of the header is the token.
unfoldable pub bearer_token : String → Option String
bearer_token header =
    if ltb (len header) 8 || not (slice header 0 7 == "Bearer ")
    then none
    else some (slice header 7 (len header))

-- The switch on the type of a stored event: the state that the task goes to, if any, and whether
-- its token is revoked.
pub data Effect : Type 0 where
  finishes : TaskState → Effect
  starts : Effect
  nothing : Effect

unfoldable pub effect_of : EventType → Effect
effect_of task_completed = finishes completed
effect_of task_failed = finishes failed
effect_of task_timeout = finishes timeout
effect_of task_started = starts
effect_of task_llm_call = nothing
effect_of task_tool_call = nothing
effect_of task_policy_blocked = nothing
effect_of (EventType.other s) = nothing

module _ (lib : Library) (s : Server) where
  unfoldable pub set_task_state : String → String → TaskState → Exec World Unit
  set_task_state problem task_id state =
      on_error (λ e. error problem) (s.store.update_task_state task_id state)

  -- `UpdateTaskState` must succeed; an error of `RevokeAgentToken` is logged and dropped.
  unfoldable pub apply_effect : String → Effect → World → Result (Unit {0}) × World
  apply_effect task_id (finishes state) = do
    set_task_state "failed to finalize task state" task_id state
    attempt (s.store.revoke_agent_token task_id)
    pure tt
  apply_effect task_id starts = set_task_state "failed to update task state" task_id running
  apply_effect task_id nothing = pure tt

  -- `eventID := req.ID`, or a new one where it is empty.
  unfoldable pub event_id : String → Exec World String
  event_id id = if id == "" then generate_id "evt" else pure id

  abbrev pub new_event : CreateEventRequest → String → ℕ → Event
  new_event req id now = record {
    id = id;
    task_id = req.task_id;
    type = event_type_of req.type;
    payload = req.payload;
    created_at = now;
  }

  unfoldable pub store_event : Event → Exec World Unit
  store_event e = on_error (wrap "failed to store event: ") (s.store.append_event e)

  -- The part of the handler behind the verified token; its errors are answered with 500.
  unfoldable pub record_event : CreateEventRequest → Exec World String
  record_event req = do
    id ← event_id req.id
    now ← clock
    store_event (new_event req id now)
    apply_effect req.task_id (effect_of (event_type_of req.type))
    pure id

  abbrev pub respond_recorded : Result String → Response
  respond_recorded (ok id) = write_json 201 (event_created id)
  respond_recorded (err e) = write_error 500 e

  -- The answer to a verification, and what follows a valid one.
  unfoldable pub after_verification : CreateEventRequest → Result Bool → World → Response × World
  after_verification req (err e) w = (write_error 500 (wrap "token verification failed: " e), w)
  after_verification req (ok false) w =
      (write_error 401 (error "invalid or revoked agent token"), w)
  after_verification req (ok true) w =
      let (recorded, w') = record_event req w in (respond_recorded recorded, w')

  unfoldable pub verified : String → CreateEventRequest → World → Response × World
  verified token req w =
      let (valid, w') = s.store.verify_agent_token req.task_id (lib.sha256 token) w in
      after_verification req valid w'

  unfoldable pub with_body : String → Result CreateEventRequest → World → Response × World
  with_body token (err e) w = (write_error 400 (wrap "invalid request body: " e), w)
  with_body token (ok req) w =
      if req.task_id == ""
      then (write_error 400 (error "task_id is required"), w)
      else verified token req w

  unfoldable pub handle_create_event : EventPost → World → Response × World
  handle_create_event post w = elim (bearer_token post.authorization) [
    | none ↦ (write_error 401 (error "missing or invalid Authorization header"), w)
    | some token ↦ with_body token post.body w
  ]
