-- ===== src/Api/TaskService/DockerStub.antt =====
-- The last step of `CreateTask` for a task on the Docker runtime, over the Postgres store.
use hermes_manager.Prelude.{
  String, ◌≡◌, refl, ap, inl, inr, Option, some, List, [], Result, err, Error, lookup, on_error,
  on_error-stop, >>=-stop, wrap, Bool-cases, ◌==◌,
}
use hermes_manager.Storage.{Task, Skill}
use hermes_manager.World.{World}
use hermes_manager.Policy.{Rule}
use hermes_manager.Runtime.{Handle, err_runtime_unavailable, with_detail}
use hermes_manager.Runtime.Drivers.Docker.{docker_runtime, docker_dispatch}
use hermes_manager.Scheduler.{Scheduler, new_scheduler, about_dispatch, dispatch_on, dispatch}
use hermes_manager.Postgres
use hermes_manager.Api.Server.{Library}
use hermes_manager.Api.TaskService.{launch, handle_or_roll_back, roll_back}
use hermes_manager.Api.TaskService.Steps.{server}
use hermes_manager.Api.TaskService.Success.{Runtimes, AllKeepTables}
use hermes_manager.Api.TaskService.Failure.{IsRolledBack, launch-IsRolledBack}

module _ (getenv : String → String) (task : Task) (skill : Skill) (w : World) where
  docker_dispatch-fails : (e : Error) × (docker_dispatch getenv task skill w ≡ (err e, w))
  unfolding docker_dispatch
  docker_dispatch-fails = elim (Bool-cases (getenv "DOCKER_HOST" == "")) [
    | inl unset ↦ (
      with_detail err_runtime_unavailable "DOCKER_HOST not set",
      rw (unset, docker_dispatch) refl,
    )
    | inr set ↦ (
      with_detail err_runtime_unavailable "docker dispatch not yet implemented",
      rw (set, docker_dispatch) refl,
    )
  ]

  dispatch-fails :
      (runtimes : Runtimes)
      → lookup task.runtime runtimes ≡ some (docker_runtime getenv)
      → (e : Error) × (dispatch (new_scheduler runtimes Postgres.store) task skill w ≡ (err e, w))
  unfolding dispatch new_scheduler dispatch_on docker_runtime
  dispatch-fails runtimes found =
      let (e, failed) = docker_dispatch-fails in
      (
        about_dispatch task e,
        rw (found, dispatch)
            (>>=-stop (on_error (about_dispatch task) (docker_dispatch getenv task skill)) _ w w
              (about_dispatch task e)
              (on_error-stop (about_dispatch task) (docker_dispatch getenv task skill) w w e
                failed)),
      )

module _ (lib : Library) (sched : Option (Scheduler World)) (pol : Option (List Rule)) where
  -- A task whose runtime is the Docker stub never starts: whatever the environment, over a network
  -- that fails nothing and with drivers that leave the database alone, the last step of `CreateTask`
  -- returns an error, the stored task has failed, the store accepts no token for it, and every other
  -- task is as it was.
  pub launch-docker :
      (getenv : String → String) (runtimes : Runtimes) (task : Task) (skill : Skill) (t : Task)
      (w : World)
      → AllKeepTables (some runtimes)
      → lookup task.runtime runtimes ≡ some (docker_runtime getenv)
      → w.net ≡ []
      → lookup task.id w.db.tasks ≡ some t
      → (e : Error) × (w' : World) × (launch lib
            (server lib sched pol)
            (new_scheduler runtimes Postgres.store)
            task
            skill
            w
          ≡ (err e, w'))
        × IsRolledBack task.id w w'
  unfolding launch handle_or_roll_back roll_back
  launch-docker getenv runtimes task skill t w keep found quiet there =
      let s = server lib sched pol in
      let (cause, failed) = dispatch-fails getenv task skill w runtimes found in
      let w' = (roll_back lib s task.id cause w).1 in
      let ran : launch lib s (new_scheduler runtimes Postgres.store) task skill w
          ≡ (err (wrap "dispatch failed (task rolled back): " cause), w') =
        ap (λ (r : Result Handle × World). handle_or_roll_back lib s task.id r.0 r.1) failed in
      (
        wrap "dispatch failed (task rolled back): " cause,
        w',
        ran,
        launch-IsRolledBack lib sched pol runtimes task skill t w w' _ keep quiet there ran,
      )
