-- ===== src/Api/TaskService/Quiet.antt =====
-- internal/api/taskservice.go: the steps of `CreateTask` over a Postgres network that fails nothing.
use hermes_manager.Prelude.{
  ℕ, String, ◌≡◌, refl, ◌∙◌, ap, true, false, Option, some, List, [], ◌∷◌, Result, ok, lookup,
  insert, is_absent, is_absent-some, wrap, on_error, on_error-run, >>=-run, lift, ◌==◌,
}
use hermes_manager.Storage.{Skill, fits_int32}
use hermes_manager.World.{World, rand_read}
use hermes_manager.Policy.{Rule}
use hermes_manager.Scheduler.{Scheduler}
use hermes_manager.Postgres
use hermes_manager.Postgres.{is_known_state}
use hermes_manager.Postgres.Quiet.{get_skill_quiet, create_task_quiet, store_agent_token_quiet}
use hermes_manager.Api.Server.{Library, id_text, generate_id, generate_token, encode_hex}
use hermes_manager.Api.TaskService.{
  CreateTaskRequest, check_policy, policy_request, new_task, deadline_or_default, admit, persist,
  issue_token,
}
use hermes_manager.Api.TaskService.Steps.{server}

rand_read-some :
    (b : List ℕ) (rest : List (Option (List ℕ))) (w : World)
    → w.random ≡ some b ∷ rest
    → rand_read w ≡ (ok b, record w { random = rest })
unfolding rand_read
rand_read-some b rest w e = rw (e, rand_read) refl

generate_id-some :
    (prefix : String) (b : List ℕ) (rest : List (Option (List ℕ))) (w : World)
    → w.random ≡ some b ∷ rest
    → generate_id prefix w ≡ (ok (id_text prefix (ok b)), record w { random = rest })
unfolding generate_id
generate_id-some prefix b rest w e =
    ap (λ (r : Result (List ℕ) × World). (ok (id_text prefix r.0), r.1)) (rand_read-some b rest w e)

module _ (lib : Library) (pol : Option (List Rule)) where
  pub admit-run :
      (sched : Option (Scheduler World)) (req : CreateTaskRequest) (skill : Skill) (w : World)
      → w.net ≡ []
      → lookup req.skill_name w.db.skills ≡ some skill
      → check_policy lib.format_float pol (policy_request req skill) ≡ ok tt
      → admit lib (server lib sched pol) req w ≡ (ok skill, w)
  unfolding admit
  admit-run sched req skill w quiet found allowed =
      let got =
        on_error-run (wrap "failed to lookup skill: ") (Postgres.get_skill req.skill_name) w w
          (some skill) (get_skill_quiet w quiet req.skill_name ∙ ap (λ o. (ok o, w)) found) in
      >>=-run (on_error (wrap "failed to lookup skill: ") (Postgres.get_skill req.skill_name)) _ w w
        (some skill) got
      ∙ >>=-run (lift {W = World} (check_policy lib.format_float pol (policy_request req skill))) _
          w w tt (ap (λ r. (r, w)) allowed)

  pub persist-run :
      (sched : Option (Scheduler World)) (req : CreateTaskRequest) (skill : Skill) (b : List ℕ)
      (rest : List (Option (List ℕ))) (w : World)
      → w.net ≡ []
      → w.random ≡ some b ∷ rest
      → (req.parameters == "null") ≡ false
      → is_absent (id_text "task" (ok b)) w.db.tasks ≡ true
      → lookup req.skill_name w.db.skills ≡ some skill
      → fits_int32 (deadline_or_default req.deadline_secs) ≡ true
      → persist lib (server lib sched pol) req skill w ≡ (
        ok (new_task req skill (id_text "task" (ok b)) w.now),
        record w {
          random = rest;
          db = record w.db {
            tasks =
                insert
                  (id_text "task" (ok b))
                  (record (new_task req skill (id_text "task" (ok b)) w.now) { updated_at = w.now })
                  w.db.tasks;
          };
        },
      )
  unfolding persist is_known_state
  persist-run sched req skill b rest w quiet random given fresh found deadline =
      let id = id_text "task" (ok b) in
      let task = new_task req skill id w.now in
      let w₁ = record w { random = rest } in
      let drawn : generate_id "task" w ≡ (ok id, w₁) = generate_id-some "task" b rest w random in
      let stored =
        on_error-run (wrap "failed to create task: ") (Postgres.create_task task) w₁ _ tt (
          create_task_quiet w₁ quiet task given fresh
            (is_absent-some req.skill_name w.db.skills skill found) refl deadline) in
      >>=-run (generate_id "task") _ w w₁ id drawn
      ∙ >>=-run (on_error (wrap "failed to create task: ") (Postgres.create_task task)) _ w₁ _ tt
          stored

  pub issue_token-run :
      (sched : Option (Scheduler World)) (id : String) (b : List ℕ) (rest : List (Option (List ℕ)))
      (w : World)
      → w.net ≡ []
      → w.random ≡ some b ∷ rest
      → is_absent id w.db.tasks ≡ false
      → issue_token lib (server lib sched pol) id w ≡ (
        ok (encode_hex b),
        record w {
          random = rest;
          db = record w.db {
            tokens =
                insert id
                  (record { token_hash = lib.sha256 (encode_hex b); revoked = false })
                  w.db.tokens;
          };
        },
      )
  unfolding issue_token generate_token
  issue_token-run sched id b rest w quiet random there =
      let about = wrap "failed to generate token: " in
      let w₁ = record w { random = rest } in
      let drawn : generate_token about w ≡ (ok (encode_hex b), w₁) =
        >>=-run (on_error about rand_read) _ w w₁ b
          (on_error-run about rand_read w w₁ b (rand_read-some b rest w random)) in
      let hash = lib.sha256 (encode_hex b) in
      let stored =
        on_error-run (wrap "failed to store agent token: ") (Postgres.store_agent_token id hash) w₁
          _ tt (store_agent_token_quiet w₁ quiet id hash there) in
      >>=-run (generate_token about) _ w w₁ (encode_hex b) drawn
      ∙ >>=-run
          (on_error (wrap "failed to store agent token: ") (Postgres.store_agent_token id hash)) _
          w₁ _ tt stored
