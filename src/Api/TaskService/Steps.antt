-- ===== src/Api/TaskService/Steps.antt =====
-- What each step of `CreateTask` has done when it returns without an error, over the Postgres store.
use hermes_manager.Prelude.{
  ℕ, String, ◌≡◌, ◌∙◌, sym, ap, ap₂, subst, true, false, Option, none, some, List, [], arith,
  Result, ok, Error, lookup, insert, is_absent, on_error, on_error-eq-ok, >>=-eq-ok, wrap, lift,
  pure,
}
use hermes_manager.Storage.{Task, Skill}
use hermes_manager.World.{World, Db, rand_read}
use hermes_manager.Policy.{Rule}
use hermes_manager.Scheduler.{Scheduler}
use hermes_manager.Postgres
use hermes_manager.Postgres.Statement.{rest_of}
use hermes_manager.Postgres.Calls.{
  SameRest, get_skill-eq-ok, create_task-eq-ok, store_agent_token-eq-ok,
}
use hermes_manager.Api.Server.{Library, Server, new_server, generate_id, generate_token}
use hermes_manager.Api.TaskService.{
  CreateTaskRequest, require_skill, check_policy, policy_request, new_task, admit, persist,
  issue_token,
}

module _ (lib : Library) (sched : Option (Scheduler World)) (pol : Option (List Rule)) where
  abbrev pub server : Server
  server = new_server Postgres.store sched pol

  -- The parts of the world that a step hands on.
  pub record SameClock (w w' : World) : Type 0 where
    pub now : w'.now ≡ w.now
    pub quiet : w.net ≡ [] → w'.net ≡ []

  generate_id-same :
      (prefix id : String) (w w' : World)
      → generate_id prefix w ≡ (ok id, w')
      → (w'.db ≡ w.db) × SameClock w w'
  unfolding generate_id rand_read
  generate_id-same prefix id w w' h =
      (ground arith, record { now = ground arith; quiet = λ q. ground arith })

  generate_token-same :
      (about : Error → Error) (token : String) (w w' : World)
      → generate_token about w ≡ (ok token, w')
      → (w'.db ≡ w.db) × SameClock w w'
  unfolding generate_token rand_read
  generate_token-same about token w w' h =
      (ground arith, record { now = ground arith; quiet = λ q. ground arith })

  require_skill-eq-ok :
      (name : String) (found : Option Skill) (skill : Skill)
      → require_skill name found ≡ ok skill
      → found ≡ some skill
  require_skill-eq-ok name none skill h = cc
  require_skill-eq-ok name (some s) skill h = cc

  SameClock-trans : {u v w : World} → SameClock u v → SameClock v w → SameClock u w
  SameClock-trans a b = record { now = b.now ∙ a.now; quiet = λ q. b.quiet (a.quiet q) }

  SameRest-SameClock : {u v : World} → SameRest u v → SameClock u v
  SameRest-SameClock r = record { now = r.now; quiet = λ q. r.net ∙ ap rest_of q }

  SameClock-end :
      {A : Type 0} {u v w : World} {a b : A}
      → ◌≡◌ {A = Result A × World} (ok a, v) (ok b, w)
      → SameClock u v
      → SameClock u w
  SameClock-end {u} h c = subst (λ x. SameClock u x) (ap (λ r. r.1) h) c

  admitted :
      (req : CreateTaskRequest) (sk skill : Skill) (found : Option Skill) (w w₁ w₂ w₃ w' : World)
      → Postgres.get_skill req.skill_name w ≡ (ok found, w₁)
      → lift {W = World} (require_skill req.skill_name found) w₁ ≡ (ok sk, w₂)
      → lift {W = World} (check_policy lib.format_float pol (policy_request req sk)) w₂
        ≡ (ok tt, w₃)
      → pure {W = World} sk w₃ ≡ (ok skill, w')
      → (lookup req.skill_name w.db.skills ≡ some skill)
        × (check_policy lib.format_float pol (policy_request req skill) ≡ ok tt)
        × (w'.db ≡ w.db)
        × SameClock w w'
  admitted req sk skill found w w₁ w₂ w₃ w' got required allowed end =
      let (answer, db, rest) = get_skill-eq-ok w w₁ req.skill_name found got in
      let same : sk ≡ skill = cc in
      let there : found ≡ some sk =
        require_skill-eq-ok req.skill_name found sk (ap (λ r. r.0) required) in
      let worlds : w' ≡ w₁ =
        sym (ap (λ r. r.1) required ∙ ap (λ r. r.1) allowed ∙ ap (λ r. r.1) end) in
      (
        sym answer ∙ there ∙ ap some same,
        subst (λ (s : Skill). check_policy lib.format_float pol (policy_request req s) ≡ ok tt) same
            (ap (λ r. r.0) allowed),
        ap (λ (v : World). v.db) worlds ∙ db,
        subst (λ v. SameClock w v) (sym worlds) (SameRest-SameClock rest),
      )

  persisted :
      (req : CreateTaskRequest) (skill : Skill) (id : String) (task : Task) (w w₁ w₂ w' : World)
      → generate_id "task" w ≡ (ok id, w₁)
      → Postgres.create_task (new_task req skill id w₁.now) w₁ ≡ (ok tt, w₂)
      → pure {W = World} (new_task req skill id w₁.now) w₂ ≡ (ok task, w')
      → (task ≡ new_task req skill task.id w.now)
        × (is_absent task.id w.db.tasks ≡ true)
        × (w'.db ≡ record w.db {
          tasks = insert task.id (record task { updated_at = w.now }) w.db.tasks;
        })
        × SameClock w w'
  persisted req skill id task w w₁ w₂ w' drawn stored end =
      let (db₁, clock₁) = generate_id-same "task" id w w₁ drawn in
      let (fresh, _, _, db₂, rest) =
        create_task-eq-ok w₁ w₂ (new_task req skill id w₁.now) stored in
      let same : new_task req skill id w₁.now ≡ task = cc in
      let same_id : id ≡ task.id = ap (λ (t : Task). t.id) same in
      let db₃ : w'.db ≡ w₂.db = sym (ap (λ r. r.1.db) end) in
      let c = SameClock-end end (SameClock-trans clock₁ (SameRest-SameClock rest)) in
      (
        sym same ∙ ap₂ (λ i n. new_task req skill i n) same_id clock₁.now,
        subst (λ i. is_absent i w.db.tasks ≡ true) same_id
            (subst (λ (d : Db). is_absent id d.tasks ≡ true) db₁ fresh),
        sym (ap (λ r. r.1.db) end)
            ∙ db₂
            ∙ ap₂
                (λ (d : Db) (n : ℕ). record d {
                  tasks =
                      insert id (record (new_task req skill id w₁.now) { updated_at = n }) d.tasks;
                })
                db₁ clock₁.now
            ∙ ap
                (λ (t : Task). record w.db {
                  tasks = insert t.id (record t { updated_at = w.now }) w.db.tasks;
                })
                same,
        c,
      )

  issued :
      (task_id drawn_token token : String) (w w₁ w₂ w' : World)
      → generate_token (wrap "failed to generate token: ") w ≡ (ok drawn_token, w₁)
      → Postgres.store_agent_token task_id (lib.sha256 drawn_token) w₁ ≡ (ok tt, w₂)
      → pure {W = World} drawn_token w₂ ≡ (ok token, w')
      → (w'.db ≡ record w.db {
        tokens =
            insert task_id (record { token_hash = lib.sha256 token; revoked = false }) w.db.tokens;
      })
        × SameClock w w'
  issued task_id drawn_token token w w₁ w₂ w' drawn stored end =
      let (db₁, clock₁) =
        generate_token-same (wrap "failed to generate token: ") drawn_token w w₁ drawn in
      let (db₂, rest) = store_agent_token-eq-ok w₁ w₂ task_id (lib.sha256 drawn_token) stored in
      let same : drawn_token ≡ token = cc in
      (
        sym (ap (λ r. r.1.db) end)
            ∙ db₂
            ∙ ap₂
                (λ (d : Db) t. record d {
                  tokens =
                      insert task_id (record { token_hash = lib.sha256 t; revoked = false })
                        d.tokens;
                })
                db₁ same,
        SameClock-end end (SameClock-trans clock₁ (SameRest-SameClock rest)),
      )

  pub admit-eq-ok :
      (req : CreateTaskRequest) (skill : Skill) (w w' : World)
      → admit lib server req w ≡ (ok skill, w')
      → (lookup req.skill_name w.db.skills ≡ some skill)
        × (check_policy lib.format_float pol (policy_request req skill) ≡ ok tt)
        × (w'.db ≡ w.db)
        × SameClock w w'
  unfolding admit
  admit-eq-ok req skill w w' h =
      let lookup_skill =
        on_error (wrap "failed to lookup skill: ") (Postgres.get_skill req.skill_name) in
      let (found, w₁, got, h₁) = >>=-eq-ok lookup_skill _ w skill w' h in
      let (sk, w₂, required, h₂) =
        >>=-eq-ok (lift {W = World} (require_skill req.skill_name found)) _ w₁ skill w' h₁ in
      let (_, w₃, allowed, h₃) =
        >>=-eq-ok (lift {W = World} (check_policy lib.format_float pol (policy_request req sk))) _
          w₂ skill w' h₂ in
      admitted req sk skill found w w₁ w₂ w₃ w'
        (on_error-eq-ok (wrap "failed to lookup skill: ") (Postgres.get_skill req.skill_name) w
          found w₁ got)
        required allowed h₃

  pub persist-eq-ok :
      (req : CreateTaskRequest) (skill : Skill) (task : Task) (w w' : World)
      → persist lib server req skill w ≡ (ok task, w')
      → (task ≡ new_task req skill task.id w.now)
        × (is_absent task.id w.db.tasks ≡ true)
        × (w'.db ≡ record w.db {
          tasks = insert task.id (record task { updated_at = w.now }) w.db.tasks;
        })
        × SameClock w w'
  unfolding persist
  persist-eq-ok req skill task w w' h =
      let (id, w₁, drawn, h₁) = >>=-eq-ok (generate_id "task") _ w task w' h in
      let created =
        on_error (wrap "failed to create task: ")
          (Postgres.create_task (new_task req skill id w₁.now)) in
      let (_, w₂, stored, h₂) = >>=-eq-ok created _ w₁ task w' h₁ in
      persisted req skill id task w w₁ w₂ w' drawn
        (on_error-eq-ok (wrap "failed to create task: ")
          (Postgres.create_task (new_task req skill id w₁.now)) w₁ tt w₂ stored)
        h₂

  pub issue_token-eq-ok :
      (task_id token : String) (w w' : World)
      → issue_token lib server task_id w ≡ (ok token, w')
      → (w'.db ≡ record w.db {
        tokens =
            insert task_id (record { token_hash = lib.sha256 token; revoked = false }) w.db.tokens;
      })
        × SameClock w w'
  unfolding issue_token
  issue_token-eq-ok task_id token w w' h =
      let (drawn_token, w₁, drawn, h₁) =
        >>=-eq-ok (generate_token (wrap "failed to generate token: ")) _ w token w' h in
      let (_, w₂, stored, h₂) =
        >>=-eq-ok
          (on_error (wrap "failed to store agent token: ")
            (Postgres.store_agent_token task_id (lib.sha256 drawn_token)))
          _ w₁ token w' h₁ in
      issued task_id drawn_token token w w₁ w₂ w' drawn
        (on_error-eq-ok (wrap "failed to store agent token: ")
          (Postgres.store_agent_token task_id (lib.sha256 drawn_token)) w₁ tt w₂ stored)
        h₂
