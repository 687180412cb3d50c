-- ===== src/Api/Tasks/Created.antt =====
-- POST /v1/tasks where the answer is 201, over the Postgres store.
use hermes_manager.Prelude.{
  ◌≡◌, refl, Option, List, Error, Result, ok, err, ◌==◌, arith, Bool-cases, inl, inr,
  is_policy_denied, error_text, Option-cases,
}
use hermes_manager.World.{World}
use hermes_manager.Policy.{Rule}
use hermes_manager.Api.Server.{Library}
use hermes_manager.Api.TaskService.{CreateTaskRequest, CreateTaskResult, create_task}
use hermes_manager.Api.TaskService.Steps.{server}
use hermes_manager.Api.TaskService.Success.{
  Runtimes, AllKeepTables, scheduler_of, IsCreated, create_task-IsCreated,
}
use hermes_manager.Api.Tasks.{
  contains, respond, respond_created, respond_failed, answer_request, handle_create_task,
}

module _ (lib : Library) (pol : Option (List Rule)) where
  respond_failed-not_created : (e : Error) → (respond_failed lib e).status ≡ 201 → ⊥
  unfolding respond_failed
  respond_failed-not_created e h = elim (Option-cases (is_policy_denied e)) [
    | inr (id, denied) ↦ absurd (omega (arith, rw (denied, respond_failed) at h))
    | inl other ↦
        elim (Bool-cases (contains (error_text lib.quote lib.library_text e) "not found")) [
          | inl missing ↦ absurd (omega (arith, rw (other, missing, respond_failed) at h))
          | inr cause ↦ absurd (omega (arith, rw (other, cause, respond_failed) at h))
        ]
  ]

  answered :
      (r : Result CreateTaskResult × World)
      → (respond lib r.0).status ≡ 201
      → (result : CreateTaskResult) × (r ≡ (ok result, r.1))
        × (respond lib r.0 ≡ respond_created lib result)
  unfolding respond
  answered (ok result, w) h = (result, refl, refl)
  answered (err e, w) h = absurd (respond_failed-not_created e h)

  -- An answer 201 to POST /v1/tasks comes from a body that was read and a call of `CreateTask` that
  -- returned a result, whose task the store then holds as that result says; the drivers are to
  -- leave the database alone.
  pub handle_create_task-IsCreated :
      (runtimes : Option Runtimes) (body : Result CreateTaskRequest) (w : World)
      → AllKeepTables runtimes
      → (handle_create_task lib (server lib (scheduler_of runtimes) pol) body w).0.status ≡ 201
      → (req : CreateTaskRequest) × (result : CreateTaskResult) × (body ≡ ok req)
        × ((handle_create_task lib (server lib (scheduler_of runtimes) pol) body w).0
            ≡ respond_created lib result)
        × IsCreated lib pol runtimes req result w
            (handle_create_task lib (server lib (scheduler_of runtimes) pol) body w).1
  unfolding handle_create_task answer_request
  handle_create_task-IsCreated runtimes (err e) w keep h = absurd (omega arith)
  handle_create_task-IsCreated runtimes (ok req) w keep h =
      elim (Bool-cases (req.skill_name == "")) [
        | inl unnamed ↦ absurd (omega (arith, rw (unnamed, handle_create_task) at h))
        | inr named ↦
            rw (named, handle_create_task)
              (let run = create_task lib (server lib (scheduler_of runtimes) pol) req w in
                let (result, ran, answer) = answered run (rw (named, handle_create_task) at h) in
                (
                  req,
                  result,
                  refl,
                  answer,
                  create_task-IsCreated lib pol runtimes req result w run.1 keep ran,
                ))
      ]
