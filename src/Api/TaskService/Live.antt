-- ===== src/Api/TaskService/Live.antt =====
-- internal/api/taskservice.go: when `CreateTask` returns a result, over the Postgres store.
use hermes_manager.Prelude.{
  ℕ, String, ◌≡◌, refl, ◌∙◌, sym, ap, true, false, Option, none, some, List, [], ◌∷◌, Result, ok,
  lookup, insert, adjust, lookup-insert_self, is_absent, is_absent-some, wrap, on_error,
  on_error-run, >>=-run, ◌==◌,
}
use hermes_manager.Storage.{Task, Skill, running, fits_int32, moved}
use hermes_manager.World.{World, Db}
use hermes_manager.Policy.{Rule}
use hermes_manager.Runtime.{Runtime, Handle}
use hermes_manager.Scheduler.{new_scheduler, about_dispatch, dispatch_on, dispatch}
use hermes_manager.Scheduler.Dispatch.{KeepsTables}
use hermes_manager.Postgres
use hermes_manager.Postgres.{is_known_state}
use hermes_manager.Postgres.Quiet.{update_task_state_done}
use hermes_manager.Api.Server.{Library, id_text, encode_hex}
use hermes_manager.Api.TaskService.{
  CreateTaskRequest, CreateTaskResult, check_policy, policy_request, new_task, deadline_or_default,
  admit, persist, issue_token, launch, handle_or_roll_back, finish, create_task,
}
use hermes_manager.Api.TaskService.Steps.{server}
use hermes_manager.Api.TaskService.Success.{Runtimes, scheduler_of}
use hermes_manager.Api.TaskService.Quiet.{admit-run, persist-run, issue_token-run}

-- The scheduler, where there is one, has the task's runtime, which leaves the tables alone, and whose
-- dispatch of the task in that world returns a handle.
abbrev pub Starts : Option Runtimes → Task → Skill → World → Type 0
Starts none task skill w = Unit
Starts (some runtimes) task skill w =
    (rt : Runtime World) × (lookup task.runtime runtimes ≡ some rt)
    × KeepsTables rt
    × (h : Handle) × (v : World) × (rt.dispatch task skill w ≡ (ok h, v))

module _ (lib : Library) (pol : Option (List Rule)) where
  dispatch-run :
      (runtimes : Runtimes) (task : Task) (skill : Skill) (w : World)
      → Starts (some runtimes) task skill w
      → w.net ≡ []
      → is_absent task.id w.db.tasks ≡ false
      → (h : Handle) × (v : World) × (dispatch (new_scheduler runtimes Postgres.store) task skill w
          ≡ (ok h, v))
        × (v.net ≡ [])
  unfolding dispatch new_scheduler dispatch_on is_known_state
  dispatch-run runtimes task skill w (rt, found, keep, h, v, started) quiet there =
      let same_db : v.db ≡ w.db =
        ap (λ (r : Result Handle × World). r.1.db) (sym started) ∙ keep.db task skill w in
      let still : v.net ≡ [] =
        ap (λ (r : Result Handle × World). r.1.net) (sym started) ∙ keep.net task skill w ∙ quiet in
      let there' : is_absent task.id v.db.tasks ≡ false =
        ap (λ (d : Db). is_absent task.id d.tasks) same_db ∙ there in
      let v' = record v {
        db = record v.db { tasks = adjust task.id (moved running v.now) v.db.tasks };
      } in
      (
        h,
        v',
        rw (found, dispatch)
            (>>=-run (on_error (about_dispatch task) (rt.dispatch task skill)) _ w v h
                (on_error-run (about_dispatch task) (rt.dispatch task skill) w v h started)
              ∙ >>=-run
                  (on_error (wrap "scheduler: update task state: ")
                    (Postgres.update_task_state task.id running))
                  _ v _ tt
                  (on_error-run (wrap "scheduler: update task state: ")
                    (Postgres.update_task_state task.id running) v v' tt
                    (update_task_state_done v still task.id running there' refl))),
        still,
      )

  finish-run :
      (runtimes : Option Runtimes) (task : Task) (skill : Skill) (token : String) (w : World)
      → Starts runtimes task skill w
      → w.net ≡ []
      → is_absent task.id w.db.tasks ≡ false
      → (r : CreateTaskResult) × (v : World) × (finish lib
            (server lib (scheduler_of runtimes) pol)
            (scheduler_of runtimes)
            task
            skill
            token
            w
          ≡ (ok r, v))
        × (v.net ≡ [])
  unfolding finish launch handle_or_roll_back
  finish-run none task skill token w can quiet there = (_, w, refl, quiet)
  finish-run (some runtimes) task skill token w can quiet there =
      let s = server lib (scheduler_of (some runtimes)) pol in
      let sched = new_scheduler runtimes Postgres.store in
      let (h, v, ran, still) = dispatch-run runtimes task skill w can quiet there in
      let launched : launch lib s sched task skill w ≡ (ok h, v) =
        ap (λ (r : Result Handle × World). handle_or_roll_back lib s task.id r.0 r.1) ran in
      (_, v, >>=-run (launch lib s sched task skill) _ w v h launched, still)

  -- `CreateTask` returns a result whenever the skill exists, the policy allows the request, the
  -- source of random bytes gives an identifier that is free and then a token, the request has
  -- parameters, the deadline fits the column, the network and the server fail nothing, and the
  -- scheduler, where there is one, has the runtime, which leaves the tables alone and starts this task on
  -- the host, the cluster and the random bytes that are left, whatever the tables hold. The network then
  -- still fails nothing.
  pub create_task-returns :
      (runtimes : Option Runtimes) (req : CreateTaskRequest) (skill : Skill) (b c : List ℕ)
      (rest : List (Option (List ℕ))) (w : World)
      → w.net ≡ []
      → w.random ≡ some b ∷ some c ∷ rest
      → ((db : Db)
          → Starts runtimes
              (new_task req skill (id_text "task" (ok b)) w.now)
              skill
              (record w { db = db; random = rest }))
      → (req.parameters == "null") ≡ false
      → is_absent (id_text "task" (ok b)) w.db.tasks ≡ true
      → lookup req.skill_name w.db.skills ≡ some skill
      → check_policy lib.format_float pol (policy_request req skill) ≡ ok tt
      → fits_int32 (deadline_or_default req.deadline_secs) ≡ true
      → (r : CreateTaskResult) × (w' : World) × (create_task lib
            (server lib (scheduler_of runtimes) pol)
            req
            w
          ≡ (ok r, w'))
        × (w'.net ≡ [])
  unfolding create_task
  create_task-returns runtimes req skill b c rest w quiet random starts given fresh found allowed
        deadline =
      let sched = scheduler_of runtimes in
      let s = server lib sched pol in
      let id = id_text "task" (ok b) in
      let task = new_task req skill id w.now in
      let w₁ = record w {
        random = some c ∷ rest;
        db = record w.db { tasks = insert id (record task { updated_at = w.now }) w.db.tasks };
      } in
      let there : is_absent id w₁.db.tasks ≡ false =
        is_absent-some id w₁.db.tasks _
          (lookup-insert_self id (record task { updated_at = w.now }) w.db.tasks) in
      let w₂ = record w₁ {
        random = rest;
        db = record w₁.db {
          tokens =
              insert id (record { token_hash = lib.sha256 (encode_hex c); revoked = false })
                w.db.tokens;
        };
      } in
      let (r, v, finished, still) =
        finish-run runtimes task skill (encode_hex c) w₂ (starts w₂.db) quiet there in
      (
        r,
        v,
        >>=-run (admit lib s req) _ w w skill
              (admit-run lib pol sched req skill w quiet found allowed)
            ∙ >>=-run (persist lib s req skill) _ w w₁ task (
                persist-run lib pol sched req skill b (some c ∷ rest) w quiet random given fresh
                  found deadline)
            ∙ >>=-run (issue_token lib s id) _ w₁ w₂ (encode_hex c)
                (issue_token-run lib pol sched id c rest w₁ quiet refl there)
            ∙ finished,
        still,
      )
