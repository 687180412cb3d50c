-- ===== src/Api/TaskService.antt =====
-- internal/api/taskservice.go: `CreateTask`, the pipeline from the request to the running agent.
pub mod Steps
pub mod Success
pub mod Failure
pub mod Quiet
pub mod Frozen
pub mod Kept
pub mod Live
pub mod Stranded
pub mod DockerStub
use hermes_manager.Prelude.{
  ℕ, String, Bool, true, false, Option, none, some, List, [], ◌∷◌, Error, errorf, wrap, plain,
  quoted, policy_denied, Result, ok, err, Exec, pure, raise, lift, on_error, attempt, ◌>>=◌, ◌>>◌,
  ◌==◌, if◌then◌else◌,
}
use hermes_manager.Storage.{Slice, Skill, Task, PolicyContext, pending, failed, ℤ, pos, is_positive}
use hermes_manager.World.{World}
use hermes_manager.Policy.{Rule, PolicyRequest, Decision, evaluate}
use hermes_manager.Runtime.{Handle}
use hermes_manager.Scheduler.{Scheduler, dispatch}
use hermes_manager.Api.Server.{Library, Server, generate_id, generate_token}

pub record CreateTaskRequest : Type 0 where
  pub skill_name : String
  pub parameters : String
  pub runtime : String
  pub user : String
  pub team : String
  pub deadline_secs : ℤ

pub record CreateTaskResult : Type 0 where
  pub task_id : String
  pub runtime : String
  pub external_id : String
  pub token : String

abbrev pub skill_not_found : String → Error
skill_not_found name = errorf (plain "skill " ∷ quoted name ∷ plain " not found" ∷ [])

-- `skill == nil`
abbrev pub require_skill : String → Option Skill → Result Skill
require_skill name none = err (skill_not_found name)
require_skill name (some skill) = ok skill

-- The first required model, or the empty string that a Go struct starts with.
abbrev pub first_model : Slice String → String
first_model none = ""
first_model (some []) = ""
first_model (some (model ∷ models)) = model

-- The request that the policy sees: `Tool` and `CostUSD` keep their zero values.
abbrev pub policy_request : CreateTaskRequest → Skill → PolicyRequest
policy_request req skill = record {
  model = first_model skill.required_models;
  user = req.user;
  team = req.team;
  tool = "";
  cost_usd = 0;
}

-- What `CreateTask` makes of `allowed, ruleID, err`.
unfoldable pub policy_result : Decision → Result (Unit {0})
policy_result d = elim d.error [
  | some cause ↦ err (wrap "policy evaluation failed: " cause)
  | none ↦ if d.allowed then ok tt else err (policy_denied d.denied_by)
]

unfoldable pub check_policy : (ℕ → String) → Option (List Rule) → PolicyRequest → Result (Unit {0})
check_policy format_float none req = ok tt
check_policy format_float (some rules) req = policy_result (evaluate format_float rules req)

abbrev pub runtime_or_local : String → String
runtime_or_local runtime = if runtime == "" then "local" else runtime

abbrev pub deadline_or_default : ℤ → ℤ
deadline_or_default deadline = if is_positive deadline then deadline else pos 300

-- `UpdatedAt` keeps its zero value, and the store sets it.
abbrev pub new_task : CreateTaskRequest → Skill → String → ℕ → Task
new_task req skill task_id now = record {
  id = task_id;
  skill_name = req.skill_name;
  parameters = req.parameters;
  policy_context = record {
    user = req.user;
    team = req.team;
    model_allowed = skill.required_models;
  };
  runtime = runtime_or_local req.runtime;
  state = pending;
  created_at = now;
  updated_at = 0;
  deadline_secs = deadline_or_default req.deadline_secs;
}

abbrev pub clock : Exec World ℕ
clock w = (ok w.now, w)

module _ (lib : Library) (s : Server) where
  -- Steps 1 and 2: the skill and the policy.
  unfoldable pub admit : CreateTaskRequest → Exec World Skill
  admit req = do
    found ← on_error (wrap "failed to lookup skill: ") (s.store.get_skill req.skill_name)
    skill ← lift (require_skill req.skill_name found)
    lift (check_policy lib.format_float s.policy (policy_request req skill))
    pure skill

  -- Step 3: the row of the task.
  unfoldable pub persist : CreateTaskRequest → Skill → Exec World Task
  persist req skill = do
    task_id ← generate_id "task"
    now ← clock
    let task = new_task req skill task_id now
    on_error (wrap "failed to create task: ") (s.store.create_task task)
    pure task

  -- Step 4: the token, of which the store keeps the hash.
  unfoldable pub issue_token : String → Exec World String
  issue_token task_id = do
    token ← generate_token (wrap "failed to generate token: ")
    on_error (wrap "failed to store agent token: ")
        (s.store.store_agent_token task_id (lib.sha256 token))
    pure token

  -- The rollback: its own errors are logged and dropped.
  unfoldable pub roll_back : String → Error → Exec World Handle
  roll_back task_id cause = do
    attempt (s.store.update_task_state task_id failed)
    attempt (s.store.revoke_agent_token task_id)
    raise (wrap "dispatch failed (task rolled back): " cause)

  unfoldable pub handle_or_roll_back : String → Result Handle → Exec World Handle
  handle_or_roll_back task_id (ok handle) = pure handle
  handle_or_roll_back task_id (err cause) = roll_back task_id cause

  -- Step 5, on a scheduler that is not nil.
  unfoldable pub launch : Scheduler World → Task → Skill → Exec World Handle
  launch sched task skill = do
    outcome ← attempt (dispatch sched task skill)
    handle_or_roll_back task.id outcome

  unfoldable pub finish :
      Option (Scheduler World) → Task → Skill → String → Exec World CreateTaskResult
  finish none task skill token =
      pure (record { task_id = task.id; runtime = task.runtime; external_id = ""; token = token })
  finish (some sched) task skill token = do
    handle ← launch sched task skill
    pure (record {
      task_id = task.id;
      runtime = handle.runtime_name;
      external_id = handle.external_id;
      token = token;
    })

  unfoldable pub create_task : CreateTaskRequest → Exec World CreateTaskResult
  create_task req = do
    skill ← admit req
    task ← persist req skill
    token ← issue_token task.id
    finish s.scheduler task skill token
