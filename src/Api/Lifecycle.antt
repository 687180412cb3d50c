-- ===== src/Api/Lifecycle.antt =====
-- internal/api: a task from `CreateTask` to the event that finishes it, over the Postgres store.
use hermes_manager.Prelude.{
  ◌≡◌, ◌∙◌, sym, ap, subst, true, false, Option, some, List, [], ok, lookup, is_absent,
  is_absent-some, eq_refl, ◌==◌,
}
use mathlib.Core.Option
use hermes_manager.Storage.{moved, Skill, TaskState, event_type_of}
use hermes_manager.World.{World}
use hermes_manager.Policy.{Rule}
use hermes_manager.Postgres.{accepts}
use hermes_manager.Api.Server.{Library}
use hermes_manager.Api.TaskService.{CreateTaskRequest, CreateTaskResult, new_task, create_task}
use hermes_manager.Api.TaskService.Steps.{server}
use hermes_manager.Api.TaskService.Success.{
  Runtimes, scheduler_of, AllKeepTables, create_task-IsCreated,
}
use hermes_manager.Api.Events.{
  CreateEventRequest, EventPost, bearer_token, effect_of, finishes, handle_create_event,
}
use hermes_manager.Api.Events.Transitions.{IsClosed}
use hermes_manager.Api.Events.Accepted.{finishing_event}
use hermes_manager.Api.Events.Live.{finishing_post-created}

module _ (lib : Library) (pol : Option (List Rule)) (runtimes : Option Runtimes) where
  -- A task that `CreateTask` has made can be finished with the token of the result: a request with
  -- that token and an event with a payload that finishes the task, under a free identifier of its own,
  -- over a network and a server that fail nothing from then on, is answered with 201, and leaves the task in the state
  -- of the event, the rest of its row as it was made from the request and the skill of its name, and its
  -- token revoked. The drivers are to leave
  -- the database alone.
  pub created_task-finishes :
      (req : CreateTaskRequest) (r : CreateTaskResult) (post : EventPost)
      (event : CreateEventRequest) (state : TaskState) (w w' : World)
      → AllKeepTables runtimes
      → create_task lib (server lib (scheduler_of runtimes) pol) req w ≡ (ok r, w')
      → w'.net ≡ []
      → bearer_token post.authorization ≡ some r.token
      → post.body ≡ ok event
      → event.task_id ≡ r.task_id
      → (r.task_id == "") ≡ false
      → (event.id == "") ≡ false
      → (event.payload == "null") ≡ false
      → is_absent event.id w'.db.events ≡ true
      → effect_of (event_type_of event.type) ≡ finishes state
      → ((handle_create_event lib (server lib (scheduler_of runtimes) pol) post w').0.status ≡ 201)
        × ((skill : Skill) × (lookup req.skill_name w.db.skills ≡ some skill)
            × (lookup r.task_id
                  (handle_create_event lib
                    (server lib (scheduler_of runtimes) pol)
                    post
                    w').1.db.tasks
                ≡ some (record (new_task req skill r.task_id w.now) {
                  state = state;
                  updated_at = w'.now;
                })))
        × IsClosed r.task_id
            (handle_create_event lib (server lib (scheduler_of runtimes) pol) post w').1.db
  created_task-finishes req r post event state w w' keep made quiet header body same task named
        given fresh eff =
      let sched = scheduler_of runtimes in
      let c = create_task-IsCreated lib pol runtimes req r w w' keep made in
      let end = (handle_create_event lib (server lib sched pol) post w').1 in
      let accepted : accepts (lookup r.task_id w'.db.tokens) (lib.sha256 r.token) ≡ true =
        c.token (lib.sha256 r.token) ∙ eq_refl (lib.sha256 r.token) in
      let there : is_absent r.task_id w'.db.tasks ≡ false =
        is_absent-some r.task_id w'.db.tasks _ c.row in
      let created =
        finishing_post-created lib sched pol post event r.token state w' quiet header body
          (subst (λ i. (i == "") ≡ false) (sym same) task)
          (subst (λ i. accepts (lookup i w'.db.tokens) (lib.sha256 r.token) ≡ true) (sym same)
            accepted)
          named given fresh (subst (λ i. is_absent i w'.db.tasks ≡ false) (sym same) there) eff in
      let (row, closed) =
        finishing_event lib sched pol post event state w' quiet body eff created in
      (
        created,
        (
          c.skill,
          c.found,
          subst
                (λ i.
                  lookup i end.db.tasks ≡ Option.map (moved state w'.now) (lookup i w'.db.tasks))
                same row
              ∙ ap (Option.map (moved state w'.now)) c.row,
        ),
        subst (λ i. IsClosed i end.db) same closed,
      )
