-- ===== src/Api/TaskService/Failure.antt =====
-- What `CreateTask` leaves behind when its last step fails, over the Postgres store.
use hermes_manager.Prelude.{
  String, ◌≡◌, refl, ◌∙◌, ap, ap₂, subst, ◌⊎◌, inl, inr, false, Option, some, List, [], arith,
  Result, ok, err, Error, lookup, adjust, lookup-adjust, lookup-adjust_self, is_absent-some,
  >>=-through, on_error, on_error-post, wrap, ◌==◌, Option-cases,
}
use mathlib.Core.Option
use hermes_manager.Storage.{moved, Task, Skill, running, failed}
use hermes_manager.World.{World, Db}
use hermes_manager.Policy.{Rule}
use hermes_manager.Runtime.{Runtime, Handle}
use hermes_manager.Scheduler.{Scheduler, new_scheduler, about_dispatch, dispatch_on, dispatch}
use hermes_manager.Scheduler.Dispatch.{KeepsTables}
use hermes_manager.Postgres
use hermes_manager.Postgres.{accepts}
use hermes_manager.Postgres.Calls.{
  update_task_state-tasks, update_task_state-now, update_task_state-net, update_task_state_quiet,
  revoke_agent_token-tasks, revoke_agent_token-tokens_quiet,
}
use hermes_manager.Postgres.TokenLife.{accepts-adjust_revoked}
use hermes_manager.Api.Server.{Library}
use hermes_manager.Api.TaskService.{launch, handle_or_roll_back, roll_back}
use hermes_manager.Api.TaskService.Steps.{server}
use hermes_manager.Api.TaskService.Success.{Runtimes, AllKeepTables}

-- Where a dispatch stops, the tasks are as before or the one task is running.
record IsStopped (id : String) (w v : World) : Type 0 where
  tasks : (v.db.tasks ≡ w.db.tasks) ⊎ (v.db.tasks ≡ adjust id (moved running w.now) w.db.tasks)
  net : v.net ≡ []
  now : v.now ≡ w.now

updated :
    (id : String) (w v : World)
    → v.db ≡ w.db
    → v.now ≡ w.now
    → ((Postgres.update_task_state id running v).1.db.tasks ≡ w.db.tasks)
      ⊎ ((Postgres.update_task_state id running v).1.db.tasks
          ≡ adjust id (moved running w.now) w.db.tasks)
updated id w v db now = elim (update_task_state-tasks v id running) [
  | inl same ↦ inl (same ∙ ap (λ (d : Db). d.tasks) db)
  | inr went ↦ inr (went ∙ ap₂ (λ n (d : Db). adjust id (moved running n) d.tasks) now db)
]

module _ (task : Task) (skill : Skill) (w : World) (quiet : w.net ≡ []) where
  dispatch_on-IsStopped :
      (rt : Runtime World)
      → KeepsTables rt
      → IsStopped task.id w (dispatch_on Postgres.store rt task skill w).1
  unfolding dispatch_on
  dispatch_on-IsStopped rt keep =
      let update =
        on_error {W = World} (wrap "scheduler: update task state: ")
          (Postgres.update_task_state task.id running) in
      >>=-through (λ v. (v.db ≡ w.db) × (v.net ≡ []) × (v.now ≡ w.now)) (IsStopped task.id w)
        (on_error (about_dispatch task) (rt.dispatch task skill)) _ w
        (on_error-post (λ v. (v.db ≡ w.db) × (v.net ≡ []) × (v.now ≡ w.now)) (about_dispatch task)
          (rt.dispatch task skill) w
          (keep.db task skill w, keep.net task skill w ∙ quiet, keep.now task skill w))
        (λ v (db, net, now). record {
          tasks = inl (ap (λ (d : Db). d.tasks) db);
          net = net;
          now = now;
        })
        (λ handle v (db, net, now).
          >>=-through (IsStopped task.id w) (IsStopped task.id w) update _ v
            (on_error-post (IsStopped task.id w) (wrap "scheduler: update task state: ")
              (Postgres.update_task_state task.id running) v
              (record {
                tasks = updated task.id w v db now;
                net = update_task_state-net task.id running v net;
                now = update_task_state-now v task.id running ∙ now;
              }))
            (λ u h. h) (λ _ u h. h))

  dispatch-IsStopped :
      (runtimes : Runtimes)
      → AllKeepTables (some runtimes)
      → IsStopped task.id w (dispatch (new_scheduler runtimes Postgres.store) task skill w).1
  unfolding dispatch new_scheduler
  dispatch-IsStopped runtimes keep = elim (Option-cases (lookup task.runtime runtimes)) [
    | inl missing ↦ rw (missing, dispatch) (record { tasks = inl refl; net = quiet; now = refl })
    | inr (rt, found) ↦ rw (found, dispatch) (dispatch_on-IsStopped rt (keep task.runtime rt found))
  ]

-- The row of a stopped task is there, whichever way it stopped.
stopped-row :
    (id : String) (w v : World) (t : Task)
    → IsStopped id w v
    → lookup id w.db.tasks ≡ some t
    → (u : Task) × (lookup id v.db.tasks ≡ some u)
stopped-row id w v t s there = elim s.tasks [
  | inl same ↦ (t, ap (lookup id) same ∙ there)
  | inr went ↦ (
    moved running w.now t,
    ap (lookup id) went
        ∙ lookup-adjust_self id (moved running w.now) w.db.tasks
        ∙ ap (Option.map (moved running w.now)) there,
  )
]

stopped-others :
    (id other : String) (w v : World)
    → IsStopped id w v
    → (id == other) ≡ false
    → lookup other v.db.tasks ≡ lookup other w.db.tasks
stopped-others id other w v s ne = elim s.tasks [
  | inl same ↦ ap (lookup other) same
  | inr went ↦
      ap (lookup other) went
      ∙ ground (arith, lookup-adjust id other (moved running w.now) w.db.tasks)
]

-- A task that the rollback has left failed, with a token that is never accepted.
pub record IsRolledBack (id : String) (w w' : World) : Type 0 where
  pub row : Task
  pub stored : lookup id w'.db.tasks ≡ some row
  pub state : row.state ≡ failed
  pub refused : (presented : String) → accepts (lookup id w'.db.tokens) presented ≡ false
  pub others :
      (other : String) → (id == other) ≡ false → lookup other w'.db.tasks ≡ lookup other w.db.tasks

module _ (lib : Library) (sched : Option (Scheduler World)) (pol : Option (List Rule)) where
  rolled_back :
      (id : String) (cause : Error) (w v : World) (t : Task)
      → IsStopped id w v
      → lookup id w.db.tasks ≡ some t
      → IsRolledBack id w (roll_back lib (server lib sched pol) id cause v).1
  unfolding roll_back Postgres.is_known_state
  rolled_back id cause w v t s there =
      let (u, stored) = stopped-row id w v t s there in
      let after =
        update_task_state_quiet id failed v s.net (is_absent-some id v.db.tasks u stored) refl in
      let v' = (Postgres.update_task_state id failed v).1 in
      let end = (Postgres.revoke_agent_token id v').1 in
      let tasks : end.db.tasks ≡ adjust id (moved failed v.now) v.db.tasks =
        revoke_agent_token-tasks v' id ∙ ap (λ (x : World). x.db.tasks) after in
      record {
        row = moved failed v.now u;
        stored =
            ap (lookup id) tasks
            ∙ lookup-adjust_self id (moved failed v.now) v.db.tasks
            ∙ ap (Option.map (moved failed v.now)) stored;
        state = refl;
        refused = λ presented.
            ap (λ ts. accepts (lookup id ts) presented)
              (revoke_agent_token-tokens_quiet id v' (update_task_state-net id failed v s.net))
            ∙ accepts-adjust_revoked id presented v'.db;
        others = λ other ne.
            ap (lookup other) tasks
            ∙ ground (arith, lookup-adjust id other (moved failed v.now) v.db.tasks)
            ∙ stopped-others id other w v s ne;
      }

  -- When the last step of `CreateTask` returns an error, over a network that fails nothing and with
  -- drivers that leave the database alone, the task that was stored has failed, the store accepts
  -- no token for it, and every other task is as it was.
  pub launch-IsRolledBack :
      (runtimes : Runtimes) (task : Task) (skill : Skill) (t : Task) (w w' : World) (e : Error)
      → AllKeepTables (some runtimes)
      → w.net ≡ []
      → lookup task.id w.db.tasks ≡ some t
      → launch lib (server lib sched pol) (new_scheduler runtimes Postgres.store) task skill w
        ≡ (err e, w')
      → IsRolledBack task.id w w'
  unfolding launch handle_or_roll_back
  launch-IsRolledBack runtimes task skill t w w' e keep quiet there h =
      outcome (dispatch (new_scheduler runtimes Postgres.store) task skill w)
        (dispatch-IsStopped task skill w quiet runtimes keep) h
    where
      outcome :
          (r : Result Handle × World)
          → IsStopped task.id w r.1
          → handle_or_roll_back lib (server lib sched pol) task.id r.0 r.1 ≡ (err e, w')
          → IsRolledBack task.id w w'
      outcome (ok handle, v) s h = absurd (cc)
      outcome (err cause, v) s h =
          let end : (roll_back lib (server lib sched pol) task.id cause v).1 ≡ w' =
            ap (λ (r : Result Handle × World). r.1) h in
          subst (λ (u : World). IsRolledBack task.id w u) end
            (rolled_back task.id cause w v t s there)
