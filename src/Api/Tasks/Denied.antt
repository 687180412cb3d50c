-- ===== src/Api/Tasks/Denied.antt =====
-- POST /v1/tasks where the policy denies the task, over any store.
use hermes_manager.Prelude.{
  String, ◌≡◌, refl, ap, false, none, some, List, Result, ok, err, ◌==◌, policy_denied,
  is_policy_denied,
}
use hermes_manager.Storage.{Skill}
use hermes_manager.World.{World}
use hermes_manager.Policy.{Rule, Decision, evaluate}
use hermes_manager.Api.Response.{write_error}
use hermes_manager.Api.Server.{Library, Server}
use hermes_manager.Api.TaskService.{
  CreateTaskRequest, CreateTaskResult, policy_request, policy_result, check_policy, admit,
  create_task,
}
use hermes_manager.Api.Tasks.{
  blocked_by, respond, respond_failed, answer_request, handle_create_task,
}

abbrev pub denial : String → Decision
denial rule_id = record { allowed = false; denied_by = rule_id; error = none }

module _ (lib : Library) (s : Server) (req : CreateTaskRequest) (skill : Skill) (rules : List Rule)
    (rule_id : String) (w v : World) where
  check_policy-denied :
      s.policy ≡ some rules
      → evaluate lib.format_float rules (policy_request req skill) ≡ denial rule_id
      → check_policy lib.format_float s.policy (policy_request req skill)
        ≡ err (policy_denied rule_id)
  unfolding check_policy policy_result
  check_policy-denied pol denied = rw pol (ap policy_result denied)

  admit-denied :
      s.policy ≡ some rules
      → s.store.get_skill req.skill_name w ≡ (ok (some skill), v)
      → evaluate lib.format_float rules (policy_request req skill) ≡ denial rule_id
      → admit lib s req w ≡ (err (policy_denied rule_id), v)
  unfolding admit
  admit-denied pol found denied = rw (found, admit) (rw (check_policy-denied pol denied) refl)

  create_task-denied :
      admit lib s req w ≡ (err (policy_denied rule_id), v)
      → create_task lib s req w ≡ (err (policy_denied rule_id), v)
  unfolding create_task
  create_task-denied h = rw (h) refl

  -- Where the skill is found and the policy denies the request by a rule, the answer is 403 with
  -- that rule, and the world is as the call that found the skill left it, over any store.
  pub handle_create_task-denied :
      (req.skill_name == "") ≡ false
      → s.policy ≡ some rules
      → s.store.get_skill req.skill_name w ≡ (ok (some skill), v)
      → evaluate lib.format_float rules (policy_request req skill) ≡ denial rule_id
      → handle_create_task lib s (ok req) w ≡ (write_error 403 (blocked_by rule_id), v)
  unfolding handle_create_task answer_request respond respond_failed is_policy_denied
  handle_create_task-denied named pol found denied =
      rw (named, handle_create_task)
        (ap (λ (r : Result CreateTaskResult × World). (respond lib r.0, r.1))
          (create_task-denied (admit-denied pol found denied)))
