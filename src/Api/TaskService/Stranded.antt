-- ===== src/Api/TaskService/Stranded.antt =====
-- internal/api/taskservice.go: `CreateTask` where the step that issues the token returns an error, over
-- the Postgres store.
use hermes_manager.Prelude.{
  String, ◌≡◌, refl, ◌∙◌, sym, ap, arith, Option, some, List, Result, ok, err, Error, lookup,
  lookup-insert_self, wrap, on_error, on_error-post, >>=-run, >>=-stop, >>=-through,
}
use hermes_manager.Storage.{Task, Skill}
use hermes_manager.World.{World, Db, rand_read}
use hermes_manager.Policy.{Rule}
use hermes_manager.Scheduler.{Scheduler}
use hermes_manager.Postgres
use hermes_manager.Postgres.{upsert_token}
use hermes_manager.Postgres.Statement.{statement-db}
use hermes_manager.Api.Server.{Library, generate_token}
use hermes_manager.Api.TaskService.{
  CreateTaskRequest, new_task, admit, persist, issue_token, create_task,
}
use hermes_manager.Api.TaskService.Steps.{server, persist-eq-ok}

store_agent_token-tasks :
    (id hash : String) (w : World) → (Postgres.store_agent_token id hash w).1.db.tasks ≡ w.db.tasks
unfolding Postgres.store_agent_token upsert_token
store_agent_token-tasks id hash w =
    statement-db (λ db. db.tasks ≡ w.db.tasks) _ w refl (ground arith)

generate_token-tasks :
    (about : Error → Error) (w : World) → (generate_token about w).1.db.tasks ≡ w.db.tasks
unfolding generate_token rand_read
generate_token-tasks about w = ground arith

module _ (lib : Library) (sched : Option (Scheduler World)) (pol : Option (List Rule)) where
  issue_token-tasks :
      (id : String) (w : World)
      → (issue_token lib (server lib sched pol) id w).1.db.tasks ≡ w.db.tasks
  unfolding issue_token
  issue_token-tasks id w =
      >>=-through (λ v. v.db.tasks ≡ w.db.tasks) (λ v. v.db.tasks ≡ w.db.tasks)
        (generate_token (wrap "failed to generate token: ")) _ w
        (generate_token-tasks (wrap "failed to generate token: ") w) (λ v h. h)
        (λ token v h.
          >>=-through (λ u. u.db.tasks ≡ w.db.tasks) (λ u. u.db.tasks ≡ w.db.tasks)
            (on_error (wrap "failed to store agent token: ")
              (Postgres.store_agent_token id (lib.sha256 token)))
            _ v
            (on_error-post (λ u. u.db.tasks ≡ w.db.tasks) (wrap "failed to store agent token: ")
              (Postgres.store_agent_token id (lib.sha256 token)) v
              (store_agent_token-tasks id (lib.sha256 token) v ∙ h))
            (λ u k. k) (λ _ u k. k))

  -- Where the token cannot be generated or stored, over any network, `CreateTask` returns that error
  -- and the task that it has written stays in the table, pending: nothing rolls it back.
  pub create_task_strands :
      (req : CreateTaskRequest) (skill : Skill) (task : Task) (e : Error) (w w₁ w₂ w₃ : World)
      → admit lib (server lib sched pol) req w ≡ (ok skill, w₁)
      → persist lib (server lib sched pol) req skill w₁ ≡ (ok task, w₂)
      → issue_token lib (server lib sched pol) task.id w₂ ≡ (err e, w₃)
      → (create_task lib (server lib sched pol) req w ≡ (err e, w₃))
        × (lookup task.id w₃.db.tasks
            ≡ some (record (new_task req skill task.id w₁.now) { updated_at = w₁.now }))
  unfolding create_task
  create_task_strands req skill task e w w₁ w₂ w₃ admitted persisted failed =
      let s = server lib sched pol in
      let (is, fresh, db, clock) = persist-eq-ok lib sched pol req skill task w₁ w₂ persisted in
      let same : w₃.db.tasks ≡ w₂.db.tasks =
        ap (λ (r : Result String × World). r.1.db.tasks) (sym failed)
        ∙ issue_token-tasks task.id w₂ in
      (
        >>=-run (admit lib s req) _ w w₁ skill admitted
            ∙ >>=-run (persist lib s req skill) _ w₁ w₂ task persisted
            ∙ >>=-stop (issue_token lib s task.id) _ w₂ w₃ e failed,
        ap (lookup task.id) (same ∙ ap (λ (d : Db). d.tasks) db)
            ∙ lookup-insert_self task.id (record task { updated_at = w₁.now }) w₁.db.tasks
            ∙ ap (λ (t : Task). some (record t { updated_at = w₁.now })) is,
      )
