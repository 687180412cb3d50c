-- ===== src/Api/Events/Live.antt =====
-- internal/api/router.go: POST /v1/events with an event that finishes its task, over a network that
-- fails nothing.
use hermes_manager.Prelude.{
  String, ◌≡◌, refl, ◌∙◌, sym, ap, subst, true, false, Option, some, List, [], Result, ok, arith,
  lookup, insert, is_absent, error, wrap, on_error, on_error-run, >>=-run, ◌==◌,
}
use hermes_manager.Storage.{TaskState, EventType, event_type_of}
use hermes_manager.World.{World}
use hermes_manager.Policy.{Rule}
use hermes_manager.Scheduler.{Scheduler}
use hermes_manager.Postgres
use hermes_manager.Postgres.{accepts, is_known_type, is_known_state}
use hermes_manager.Postgres.Quiet.{
  append_event_quiet, update_task_state_done, verify_agent_token_quiet,
}
use hermes_manager.Api.Server.{Library}
use hermes_manager.Api.Events.{
  finishes, effect_of, apply_effect, set_task_state, store_event, event_id, new_event, record_event,
  CreateEventRequest, EventPost, bearer_token, after_verification, verified, with_body,
  handle_create_event, respond_recorded,
}
use hermes_manager.Api.Events.Steps.{server}

-- An event that finishes its task has a type that the schema knows, and so has the state.
effect_of-finishes :
    (type : EventType) (state : TaskState)
    → effect_of type ≡ finishes state
    → (is_known_type type ≡ true) × (is_known_state state ≡ true)
unfolding effect_of is_known_type is_known_state
effect_of-finishes type state h = ground arith

module _ (lib : Library) (sched : Option (Scheduler World)) (pol : Option (List Rule)) where
  apply_effect-run :
      (id : String) (state : TaskState) (w : World)
      → w.net ≡ []
      → is_absent id w.db.tasks ≡ false
      → is_known_state state ≡ true
      → (v : World) × (apply_effect lib (server lib sched pol) id (finishes state) w ≡ (ok tt, v))
  unfolding apply_effect set_task_state
  apply_effect-run id state w quiet there known = (
    _,
    >>=-run
        (on_error (λ e. error "failed to finalize task state")
          (Postgres.update_task_state id state))
        _ w _ tt
        (on_error-run (λ e. error "failed to finalize task state")
          (Postgres.update_task_state id state) w _ tt
          (update_task_state_done w quiet id state there known)),
  )

  record_event-run :
      (req : CreateEventRequest) (state : TaskState) (w : World)
      → w.net ≡ []
      → (req.id == "") ≡ false
      → (req.payload == "null") ≡ false
      → is_absent req.id w.db.events ≡ true
      → is_absent req.task_id w.db.tasks ≡ false
      → effect_of (event_type_of req.type) ≡ finishes state
      → (v : World) × (record_event lib (server lib sched pol) req w ≡ (ok req.id, v))
  unfolding record_event event_id store_event
  record_event-run req state w quiet named has_payload fresh there eff =
      let s = server lib sched pol in
      let (type, known) = effect_of-finishes (event_type_of req.type) state eff in
      let event = new_event lib s req req.id w.now in
      let w₁ = record w { db = record w.db { events = insert req.id event w.db.events } } in
      let given : event_id lib s req.id w ≡ (ok req.id, w) = rw (named, event_id) refl in
      let stored =
        on_error-run (wrap "failed to store event: ") (Postgres.append_event event) w w₁ tt
          (append_event_quiet w quiet event has_payload fresh there type) in
      let (v, applied) = apply_effect-run req.task_id state w₁ quiet there known in
      let applied' : apply_effect lib s req.task_id (effect_of (event_type_of req.type)) w₁
          ≡ (ok tt, v) =
        subst (λ e. apply_effect lib s req.task_id e w₁ ≡ (ok tt, v)) (sym eff) applied in
      (
        v,
        >>=-run (event_id lib s req.id) _ w w req.id given
            ∙ >>=-run (store_event lib s event) _ w w₁ tt stored
            ∙ >>=-run (apply_effect lib s req.task_id (effect_of (event_type_of req.type))) _ w₁ v
                tt applied',
      )

  -- A request with an event that finishes its task, under an identifier of its own that is free, is
  -- answered with 201, if it has a payload, its bearer token is accepted for the task, the task is there, and the
  -- network fails nothing.
  pub finishing_post-created :
      (post : EventPost) (req : CreateEventRequest) (token : String) (state : TaskState) (w : World)
      → w.net ≡ []
      → bearer_token post.authorization ≡ some token
      → post.body ≡ ok req
      → (req.task_id == "") ≡ false
      → accepts (lookup req.task_id w.db.tokens) (lib.sha256 token) ≡ true
      → (req.id == "") ≡ false
      → (req.payload == "null") ≡ false
      → is_absent req.id w.db.events ≡ true
      → is_absent req.task_id w.db.tasks ≡ false
      → effect_of (event_type_of req.type) ≡ finishes state
      → (handle_create_event lib (server lib sched pol) post w).0.status ≡ 201
  unfolding handle_create_event with_body verified after_verification
  finishing_post-created post req token state w quiet header body task accepted named has_payload
        fresh there eff =
      let s = server lib sched pol in
      let (v, recorded) = record_event-run req state w quiet named has_payload fresh there eff in
      let valid : Postgres.verify_agent_token req.task_id (lib.sha256 token) w ≡ (ok true, w) =
        verify_agent_token_quiet w quiet req.task_id (lib.sha256 token)
        ∙ ap (λ b. (ok b, w)) accepted in
      rw (header, handle_create_event)
        (rw (body) (
          rw (task, with_body)
            (rw (valid, verified)
              (ap (λ (r : Result String × World). (respond_recorded lib s r.0).status) recorded))))
