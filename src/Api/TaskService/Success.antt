-- ===== src/Api/TaskService/Success.antt =====
-- What `CreateTask` leaves behind when it returns a result, over the Postgres store.
use hermes_manager.Prelude.{
  ℕ, String, ◌≡◌, refl, ◌∙◌, sym, ap, ap₂, subst, true, false, Option, none, some, List, arith,
  Result, ok, err, lookup, insert, lookup-insert, lookup-insert_self, lookup-adjust,
  lookup-adjust_self, is_absent, >>=-eq-ok, ◌==◌,
}
use mathlib.Core.Option
use hermes_manager.Storage.{moved, Task, Skill, TaskState, pending, running}
use hermes_manager.World.{World, Db}
use hermes_manager.Policy.{Rule}
use hermes_manager.Runtime.{Runtime, Handle}
use hermes_manager.Scheduler.{Scheduler, new_scheduler, dispatch}
use hermes_manager.Scheduler.Dispatch.{KeepsTables, IsDispatched, dispatch-eq-ok}
use hermes_manager.Postgres
use hermes_manager.Postgres.{accepts}
use hermes_manager.Postgres.TokenLife.{accepts-insert}
use hermes_manager.Api.Server.{Library, Server}
use hermes_manager.Api.TaskService.{
  CreateTaskRequest, CreateTaskResult, check_policy, policy_request, new_task, admit, persist,
  issue_token, launch, handle_or_roll_back, roll_back, finish, create_task,
}
use hermes_manager.Api.TaskService.Steps.{server, admit-eq-ok, persist-eq-ok, issue_token-eq-ok}

abbrev pub Runtimes : Type 0
Runtimes = List (String × Runtime World)

-- The scheduler that `main` builds over the same store, or none.
abbrev pub scheduler_of : Option Runtimes → Option (Scheduler World)
scheduler_of none = none
scheduler_of (some runtimes) = some (new_scheduler runtimes Postgres.store)

abbrev pub AllKeepTables : Option Runtimes → Type 0
AllKeepTables none = Unit
AllKeepTables (some runtimes) =
    (name : String) (rt : Runtime World) → lookup name runtimes ≡ some rt → KeepsTables rt

-- The state of a task that was just created: running if a scheduler has dispatched it.
abbrev pub first_state : Option Runtimes → TaskState
first_state none = pending
first_state (some runtimes) = running

abbrev settle : Option Runtimes → ℕ → Task → Task
settle none now t = t
settle (some runtimes) now t = moved running now t

module _ (lib : Library) (pol : Option (List Rule)) where
  launched :
      (s : Server) (task_id : String) (r : Result Handle × World) (handle : Handle) (w' : World)
      → handle_or_roll_back lib s task_id r.0 r.1 ≡ (ok handle, w')
      → r ≡ (ok handle, w')
  unfolding handle_or_roll_back roll_back
  launched s task_id (ok k, v) handle w' h = h
  launched s task_id (err e, v) handle w' h = cc

  map_id : (o : Option Task) → Option.map (λ t. t) o ≡ o
  map_id none = refl
  map_id (some t) = refl

  -- What the last step makes of the database, if it returns a result.
  record IsFinished (runtimes : Option Runtimes) (task : Task) (token : String)
      (r : CreateTaskResult) (w w' : World) : Type 0 where
    task_id : r.task_id ≡ task.id
    same_token : r.token ≡ token
    tokens : w'.db.tokens ≡ w.db.tokens
    row :
        lookup task.id w'.db.tasks ≡ Option.map (settle runtimes w.now) (lookup task.id w.db.tasks)
    others : (id : String) → (task.id == id) ≡ false → lookup id w'.db.tasks ≡ lookup id w.db.tasks

  module _ (task : Task) (skill : Skill) (token : String) (r : CreateTaskResult)
      (w w' : World) where
    dispatched-IsFinished :
        (runtimes : Runtimes) (rt : Runtime World) (handle : Handle)
        → KeepsTables rt
        → IsDispatched rt task skill handle w w'
        → r.task_id ≡ task.id
        → r.token ≡ token
        → IsFinished (some runtimes) task token r w w'
    dispatched-IsFinished runtimes rt handle keeps d same_id same_token =
        let mid : d.middle.db ≡ w.db =
          ap (λ (q : Result Handle × World). q.1.db) (sym d.started) ∙ keeps.db task skill w in
        let now : d.middle.now ≡ w.now =
          ap (λ (q : Result Handle × World). q.1.now) (sym d.started) ∙ keeps.now task skill w in
        let f = moved running in
        record {
          task_id = same_id;
          same_token = same_token;
          tokens = ap (λ (b : Db). b.tokens) d.db ∙ ap (λ (b : Db). b.tokens) mid;
          row =
              ap (λ (b : Db). lookup task.id b.tasks) d.db
              ∙ lookup-adjust_self task.id (f d.middle.now) d.middle.db.tasks
              ∙ ap₂ (λ n (b : Db). Option.map (f n) (lookup task.id b.tasks)) now mid;
          others = λ id ne.
              ap (λ (b : Db). lookup id b.tasks) d.db
              ∙ ground (arith, lookup-adjust task.id id (f d.middle.now) d.middle.db.tasks)
              ∙ ap (λ (b : Db). lookup id b.tasks) mid;
        }

    finish-eq-ok :
        (s : Server) (runtimes : Option Runtimes)
        → AllKeepTables runtimes
        → finish lib s (scheduler_of runtimes) task skill token w ≡ (ok r, w')
        → IsFinished runtimes task token r w w'
    unfolding finish launch
    finish-eq-ok s none keep h =
        let end : w ≡ w' = ap (λ (q : Result CreateTaskResult × World). q.1) h in
        record {
          task_id = cc;
          same_token = cc;
          tokens = ap (λ (v : World). v.db.tokens) (sym end);
          row =
              ap (λ (v : World). lookup task.id v.db.tasks) (sym end)
              ∙ sym (map_id (lookup task.id w.db.tasks));
          others = λ id ne. ap (λ (v : World). lookup id v.db.tasks) (sym end);
        }
    finish-eq-ok s (some runtimes) keep h =
        let (handle, v, launch_ok, h₁) =
          >>=-eq-ok (launch lib s (new_scheduler runtimes Postgres.store) task skill) _ w r w' h in
        let done =
          launched s task.id (dispatch (new_scheduler runtimes Postgres.store) task skill w) handle
            v launch_ok in
        let (rt, found, d) = dispatch-eq-ok runtimes task skill handle w v done in
        let end : v ≡ w' = ap (λ (q : Result CreateTaskResult × World). q.1) h₁ in
        dispatched-IsFinished runtimes rt handle (keep task.runtime rt found)
          (subst (λ u. IsDispatched rt task skill handle w u) end d) (cc) (cc)

  -- A created task: admitted by the skill table and the policy, under an identifier that was free,
  -- stored as the request and the skill say, with the token that the result carries.
  pub record IsCreated (runtimes : Option Runtimes) (req : CreateTaskRequest) (r : CreateTaskResult)
      (w w' : World) : Type 0 where
    pub skill : Skill
    pub found : lookup req.skill_name w.db.skills ≡ some skill
    pub allowed : check_policy lib.format_float pol (policy_request req skill) ≡ ok tt
    pub fresh : is_absent r.task_id w.db.tasks ≡ true
    pub row :
        lookup r.task_id w'.db.tasks
        ≡ some (record (new_task req skill r.task_id w.now) {
          state = first_state runtimes;
          updated_at = w.now;
        })
    pub token :
        (presented : String)
        → accepts (lookup r.task_id w'.db.tokens) presented ≡ (lib.sha256 r.token == presented)
    pub others :
        (id : String) → (r.task_id == id) ≡ false → lookup id w'.db.tasks ≡ lookup id w.db.tasks

  settled-row :
      (runtimes : Option Runtimes) (req : CreateTaskRequest) (skill : Skill) (id : String) (now : ℕ)
      → ◌≡◌ {A = Task}
          (settle runtimes now (record (new_task req skill id now) { updated_at = now }))
          (record (new_task req skill id now) { state = first_state runtimes; updated_at = now })
  settled-row none req skill id now = refl
  settled-row (some runtimes) req skill id now = refl

  created :
      (runtimes : Option Runtimes) (req : CreateTaskRequest) (skill : Skill) (task : Task)
      (token : String) (r : CreateTaskResult) (w w₁ w₂ w₃ w' : World)
      → admit lib (server lib (scheduler_of runtimes) pol) req w ≡ (ok skill, w₁)
      → persist lib (server lib (scheduler_of runtimes) pol) req skill w₁ ≡ (ok task, w₂)
      → issue_token lib (server lib (scheduler_of runtimes) pol) task.id w₂ ≡ (ok token, w₃)
      → IsFinished runtimes task token r w₃ w'
      → IsCreated runtimes req r w w'
  created runtimes req skill task token r w w₁ w₂ w₃ w' admitted persisted issued fin =
      let sched = scheduler_of runtimes in
      let (found, allowed, db₁, clock₁) = admit-eq-ok lib sched pol req skill w w₁ admitted in
      let (same_task, fresh, db₂, clock₂) =
        persist-eq-ok lib sched pol req skill task w₁ w₂ persisted in
      let (db₃, clock₃) = issue_token-eq-ok lib sched pol task.id token w₂ w₃ issued in
      let now : w₃.now ≡ w.now = clock₃.now ∙ clock₂.now ∙ clock₁.now in
      let id : task.id ≡ r.task_id = sym fin.task_id in
      let stamped = λ (n : ℕ). record task { updated_at = n } in
      let row₃ : lookup task.id w₃.db.tasks ≡ some (stamped w₁.now) =
        ap (λ (d : Db). lookup task.id d.tasks)
          (db₃
            ∙ ap
                (λ (d : Db). record d {
                  tokens =
                      insert task.id (record { token_hash = lib.sha256 token; revoked = false })
                        d.tokens;
                })
                db₂)
        ∙ lookup-insert_self task.id (stamped w₁.now) w₁.db.tasks in
      record {
        skill = skill;
        found = found;
        allowed = allowed;
        fresh =
            subst (λ i. is_absent i w.db.tasks ≡ true) id
              (subst (λ (d : Db). is_absent task.id d.tasks ≡ true) db₁ fresh);
        row =
            ap (λ i. lookup i w'.db.tasks) fin.task_id
            ∙ fin.row
            ∙ ap₂ (λ n (o : Option Task). Option.map (settle runtimes n) o) now row₃
            ∙ ap₂ (λ (t : Task) (n : ℕ). some (settle runtimes w.now (record t { updated_at = n })))
                (same_task ∙ ap₂ (λ i n. new_task req skill i n) id clock₁.now) clock₁.now
            ∙ ap some (settled-row runtimes req skill r.task_id w.now);
        token = λ presented.
            ap (λ i. accepts (lookup i w'.db.tokens) presented) fin.task_id
            ∙ ap (λ ts. accepts (lookup task.id ts) presented)
                (fin.tokens ∙ ap (λ (d : Db). d.tokens) db₃)
            ∙ accepts-insert task.id (lib.sha256 token) presented w₂.db
            ∙ ap (λ t. lib.sha256 t == presented) (sym fin.same_token);
        others = λ i ne.
            let other : (task.id == i) ≡ false = subst (λ j. (j == i) ≡ false) fin.task_id ne in
            fin.others i other
            ∙ ap (λ (d : Db). lookup i d.tasks) db₃
            ∙ ap (λ (d : Db). lookup i d.tasks) db₂
            ∙ ground (arith, lookup-insert task.id i (stamped w₁.now) w₁.db.tasks)
            ∙ ap (λ (d : Db). lookup i d.tasks) db₁;
      }

  -- When `CreateTask` returns a result, over any network and with drivers that leave the database
  -- alone: the skill exists and the policy allows it; the task's identifier was free, and its row is
  -- built from the request and the skill, running if there is a scheduler and pending if not; of all
  -- tokens the store accepts for it exactly those that hash as the returned one; and every other
  -- task is as it was.
  pub create_task-IsCreated :
      (runtimes : Option Runtimes) (req : CreateTaskRequest) (r : CreateTaskResult) (w w' : World)
      → AllKeepTables runtimes
      → create_task lib (server lib (scheduler_of runtimes) pol) req w ≡ (ok r, w')
      → IsCreated runtimes req r w w'
  unfolding create_task
  create_task-IsCreated runtimes req r w w' keep h =
      let s = server lib (scheduler_of runtimes) pol in
      let (skill, w₁, admitted, h₁) = >>=-eq-ok (admit lib s req) _ w r w' h in
      let (task, w₂, persisted, h₂) = >>=-eq-ok (persist lib s req skill) _ w₁ r w' h₁ in
      let (token, w₃, issued, h₃) = >>=-eq-ok (issue_token lib s task.id) _ w₂ r w' h₂ in
      created runtimes req skill task token r w w₁ w₂ w₃ w' admitted persisted issued
        (finish-eq-ok task skill token r w₃ w' s runtimes keep h₃)
