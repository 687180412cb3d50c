-- ===== src/Api/TaskService/Kept.antt =====
-- A task behind a revoked token through `CreateTask`, over the Postgres store.
use hermes_manager.Prelude.{
  String, ◌≡◌, sym, subst, false, Option, none, some, List, Result, ok, err, Error, lookup, wrap,
  on_error, on_error-post, lift, >>=-post, Option-cases, inl, inr, arith, ◌==◌,
}
use hermes_manager.Storage.{Task, Skill, running, failed}
use hermes_manager.World.{World, rand_read}
use hermes_manager.Policy.{Rule}
use hermes_manager.Runtime.{Runtime, Handle}
use hermes_manager.Scheduler.{Scheduler, new_scheduler, about_dispatch, dispatch_on, dispatch}
use hermes_manager.Scheduler.Dispatch.{KeepsTables}
use hermes_manager.Postgres
use hermes_manager.Postgres.{
  get_skill, insert_task, set_state, update_task_state, upsert_token, store_agent_token,
  revoke_agent_token,
}
use hermes_manager.Postgres.Statement.{statement-db}
use hermes_manager.Api.Server.{Library, generate_id, generate_token}
use hermes_manager.Api.TaskService.{
  CreateTaskRequest, require_skill, check_policy, policy_request, new_task, admit, persist,
  issue_token, roll_back, handle_or_roll_back, launch, finish, create_task,
}
use hermes_manager.Api.TaskService.Steps.{server, persist-eq-ok}
use hermes_manager.Api.TaskService.Success.{Runtimes, scheduler_of, AllKeepTables}
use hermes_manager.Api.TaskService.Frozen.{
  IsFrozen, other_name, update_task_state-IsFrozen, store_agent_token-IsFrozen,
  revoke_agent_token-IsFrozen, create_task-IsFrozen,
}

module _ (id : String) (t : Task) where
  abbrev Kept : World → Type 0
  Kept w = IsFrozen id t w.db

  get_skill-IsKept : (name : String) (w : World) → Kept w → Kept (get_skill name w).1
  unfolding get_skill
  get_skill-IsKept name w c = statement-db (IsFrozen id t) _ w c c

  generate_id-IsKept : (prefix : String) (w : World) → Kept w → Kept (generate_id prefix w).1
  unfolding generate_id rand_read
  generate_id-IsKept prefix w c =
      let same : (generate_id prefix w).1.db ≡ w.db = ground arith in
      subst (IsFrozen id t) (sym same) c

  generate_token-IsKept :
      (about : Error → Error) (w : World) → Kept w → Kept (generate_token about w).1
  unfolding generate_token rand_read
  generate_token-IsKept about w c =
      let same : (generate_token about w).1.db ≡ w.db = ground arith in
      subst (IsFrozen id t) (sym same) c

  module _ (lib : Library) (sched : Option (Scheduler World)) (pol : Option (List Rule)) where
    admit-IsKept :
        (req : CreateTaskRequest) (w : World)
        → Kept w
        → Kept (admit lib (server lib sched pol) req w).1
    unfolding admit
    admit-IsKept req w c =
        let lookup_skill = on_error (wrap "failed to lookup skill: ") (get_skill req.skill_name) in
        >>=-post Kept lookup_skill _ w
          (on_error-post Kept (wrap "failed to lookup skill: ") (get_skill req.skill_name) w
            (get_skill-IsKept req.skill_name w c))
          (λ found v _ h.
            >>=-post Kept (lift (require_skill req.skill_name found)) _ v h (λ skill u _ k.
              >>=-post Kept (lift (check_policy lib.format_float pol (policy_request req skill))) _
                u k (λ _ x _ l. l)))

    persist-IsKept :
        (req : CreateTaskRequest) (skill : Skill) (w : World)
        → Kept w
        → Kept (persist lib (server lib sched pol) req skill w).1
    unfolding persist
    persist-IsKept req skill w c =
        >>=-post Kept (generate_id "task") _ w (generate_id-IsKept "task" w c) (λ new_id v _ h.
          let task = new_task req skill new_id v.now in
          >>=-post Kept (on_error (wrap "failed to create task: ") (Postgres.create_task task)) _ v
            (on_error-post Kept (wrap "failed to create task: ") (Postgres.create_task task) v
              (create_task-IsFrozen id t task v h))
            (λ _ u _ k. k))

    issue_token-IsKept :
        (id_of : String) (w : World)
        → (id_of == id) ≡ false
        → Kept w
        → Kept (issue_token lib (server lib sched pol) id_of w).1
    unfolding issue_token
    issue_token-IsKept id_of w ne c =
        >>=-post Kept (generate_token (wrap "failed to generate token: ")) _ w
          (generate_token-IsKept (wrap "failed to generate token: ") w c)
          (λ token v _ h.
            let store_hash = Postgres.store_agent_token id_of (lib.sha256 token) in
            >>=-post Kept (on_error (wrap "failed to store agent token: ") store_hash) _ v
              (on_error-post Kept (wrap "failed to store agent token: ") store_hash v
                (store_agent_token-IsFrozen id t id_of ne (lib.sha256 token) v h))
              (λ _ u _ k. k))

    handle_or_roll_back-IsKept :
        (id_of : String) (outcome : Result Handle) (w : World)
        → (id_of == id) ≡ false
        → Kept w
        → Kept (handle_or_roll_back lib (server lib sched pol) id_of outcome w).1
    unfolding handle_or_roll_back roll_back
    handle_or_roll_back-IsKept id_of (ok handle) w ne c = c
    handle_or_roll_back-IsKept id_of (err cause) w ne c =
        revoke_agent_token-IsFrozen id t id_of ne _
          (update_task_state-IsFrozen id t id_of ne failed w c)

    dispatch_on-IsKept :
        (rt : Runtime World) (task : Task) (skill : Skill) (w : World)
        → (task.id == id) ≡ false
        → KeepsTables rt
        → Kept w
        → Kept (dispatch_on Postgres.store rt task skill w).1
    unfolding dispatch_on
    dispatch_on-IsKept rt task skill w ne keep c =
        >>=-post Kept (on_error (about_dispatch task) (rt.dispatch task skill)) _ w
          (on_error-post Kept (about_dispatch task) (rt.dispatch task skill) w
            (subst (IsFrozen id t) (sym (keep.db task skill w)) c))
          (λ handle v _ h.
            >>=-post Kept
              (on_error (wrap "scheduler: update task state: ")
                (Postgres.update_task_state task.id running))
              _ v
              (on_error-post Kept (wrap "scheduler: update task state: ")
                (Postgres.update_task_state task.id running) v
                (update_task_state-IsFrozen id t task.id ne running v h))
              (λ _ u _ k. k))

    dispatch-IsKept :
        (runtimes : Runtimes) (task : Task) (skill : Skill) (w : World)
        → (task.id == id) ≡ false
        → AllKeepTables (some runtimes)
        → Kept w
        → Kept (dispatch (new_scheduler runtimes Postgres.store) task skill w).1
    unfolding dispatch new_scheduler
    dispatch-IsKept runtimes task skill w ne keep c =
        elim (Option-cases (lookup task.runtime runtimes)) [
          | inl missing ↦ rw (missing, dispatch) c
          | inr (rt, found) ↦
              rw (found, dispatch)
                (dispatch_on-IsKept rt task skill w ne (keep task.runtime rt found) c)
        ]

    finish-IsKept :
        (runtimes : Option Runtimes) (task : Task) (skill : Skill) (token : String) (w : World)
        → (task.id == id) ≡ false
        → AllKeepTables runtimes
        → Kept w
        → Kept (finish lib (server lib sched pol) (scheduler_of runtimes) task skill token w).1
    unfolding finish launch
    finish-IsKept none task skill token w ne keep c = c
    finish-IsKept (some runtimes) task skill token w ne keep c =
        let s = server lib sched pol in
        let new = new_scheduler runtimes Postgres.store in
        >>=-post Kept (launch lib s new task skill) _ w
          (handle_or_roll_back-IsKept task.id (dispatch new task skill w).0 _ ne
            (dispatch-IsKept runtimes task skill w ne keep c))
          (λ handle v _ h. h)

  module _ (lib : Library) (runtimes : Option Runtimes) (pol : Option (List Rule))
      (keep : AllKeepTables runtimes) where
    pub create_task-IsKept :
        (req : CreateTaskRequest) (w : World)
        → Kept w
        → Kept (create_task lib (server lib (scheduler_of runtimes) pol) req w).1
    unfolding create_task
    create_task-IsKept req w c =
        let sched = scheduler_of runtimes in
        let s = server lib sched pol in
        >>=-post Kept (admit lib s req) _ w (admit-IsKept lib sched pol req w c) (λ skill v _ h.
          >>=-post Kept (persist lib s req skill) _ v (persist-IsKept lib sched pol req skill v h)
            (λ task u made k.
              let (_, free, _, _) = persist-eq-ok lib sched pol req skill task v u made in
              let ne = other_name id t task.id v.db h free in
              >>=-post Kept (issue_token lib s task.id) _ u
                (issue_token-IsKept lib sched pol task.id u ne k)
                (λ token x _ l. finish-IsKept lib sched pol runtimes task skill token x ne keep l)))
