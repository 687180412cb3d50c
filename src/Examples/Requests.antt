-- ===== src/Examples/Requests.antt =====
-- The pipeline, the handlers and the middleware on small inputs.
use hermes_manager.Prelude.{
  String, ◌≡◌, refl, subst, inl, inr, Bool-cases, Option, some, List, [], ◌∷◌, ok, err, Error,
  error, pure, raise, wrap, wrapf, plain, quoted, lookup, insert, adjust, is_absent, ◌==◌,
}
use hermes_manager.Storage.{pending, running, pos}
use hermes_manager.World.{World, rand_read}
use hermes_manager.Policy.{
  Rule, evaluate, match_rule, match_conditions, condition_holds, actual_of, decide_action,
}
use hermes_manager.Postgres
use hermes_manager.Postgres.{
  get_skill, create_task, insert_task, is_known_state, update_task_state, set_state, append_event,
  insert_event, is_known_type, store_agent_token, upsert_token, verify_agent_token,
  revoke_agent_token, accepts,
}
use hermes_manager.Postgres.Statement.{statement}
use hermes_manager.Runtime.{Runtime, Handle}
use hermes_manager.Runtime.Drivers.Local.{local_runtime}
use hermes_manager.Runtime.Drivers.Local as Local
use hermes_manager.Runtime.Drivers.Capacity.{local_runtime-KeepsTables}
use hermes_manager.Scheduler.{Scheduler, new_scheduler, names_of, dispatch_on, dispatch}
use hermes_manager.Scheduler.Dispatch.{KeepsTables, IsDispatched, dispatch-eq-ok}
use hermes_manager.Api.Server.{Server, hex_digit, encode_hex, generate_id, generate_token}
use hermes_manager.Api.TaskService
use hermes_manager.Api.TaskService.{
  CreateTaskRequest, CreateTaskResult, policy_result, check_policy, policy_request, admit, persist,
  issue_token, roll_back, handle_or_roll_back, launch, finish,
}
use hermes_manager.Api.TaskService.Steps.{server}
use hermes_manager.Api.TaskService.Success.{
  scheduler_of, AllKeepTables, IsCreated, create_task-IsCreated,
}
use hermes_manager.Api.TaskService.Failure.{IsRolledBack, launch-IsRolledBack}
use hermes_manager.Examples.Data.{
  library_functions, machine, echo, task_of, world_of, empty_db, busy_db, local_only, deny_guests,
}

one-AllKeepTables :
    (only : Runtime World) → KeepsTables only → AllKeepTables (some (("local", only) ∷ []))
unfolding lookup
one-AllKeepTables only keep name rt found = elim (Bool-cases ("local" == name)) [
  | inl same ↦
      let there : some only ≡ some rt = rw (same, lookup) at found in
      let e : only ≡ rt = cc in subst KeepsTables e keep
  | inr other ↦ absurd (cc (rw (other, lookup) at found))
]

pub local_only-AllKeepTables : AllKeepTables (some local_only)
local_only-AllKeepTables =
    one-AllKeepTables (local_runtime machine) (local_runtime-KeepsTables machine)

abbrev pub rules : Option (List Rule)
rules = some (deny_guests ∷ [])

abbrev pub request_of : String → CreateTaskRequest
request_of user = record {
  skill_name = "echo";
  parameters = "{}";
  runtime = "";
  user = user;
  team = "ops";
  deadline_secs = pos 0;
}

abbrev pub the_server : Server
the_server = server library_functions (scheduler_of (some local_only)) rules

abbrev pub fresh_world : World
fresh_world = world_of empty_db

abbrev pub created_result : CreateTaskResult
created_result = record {
  task_id = "task-01";
  runtime = "local";
  external_id = "4711";
  token = "02";
}

abbrev pub created_world : World
created_world =
    (TaskService.create_task library_functions the_server (request_of "ann") fresh_world).1

pub created_run :
    TaskService.create_task library_functions the_server (request_of "ann") fresh_world
    ≡ (ok created_result, created_world)
unfolding TaskService.create_task admit check_policy policy_result evaluate match_rule
    match_conditions condition_holds actual_of decide_action persist issue_token finish launch
    handle_or_roll_back generate_id generate_token encode_hex hex_digit rand_read get_skill
    create_task insert_task is_known_state store_agent_token upsert_token update_task_state
    set_state statement dispatch dispatch_on new_scheduler names_of lookup insert adjust is_absent
    local_runtime Local.dispatch Local.dispatch_from Local.check_capacity Local.make_task_dir
    Local.start_process
created_run = refl

create_task-IsCreated_example :
    IsCreated library_functions rules
      (some local_only)
      (request_of "ann")
      created_result
      fresh_world
      created_world
create_task-IsCreated_example =
    create_task-IsCreated library_functions rules (some local_only) (request_of "ann")
      created_result fresh_world created_world local_only-AllKeepTables created_run

-- A driver whose dispatch fails.
abbrev broken : Runtime World
broken = record {
  name = "local";
  callback_url = "";
  dispatch = λ task skill. raise (error "no capacity");
  status = pure (pos 0, pos 1);
}

broken-AllKeepTables : AllKeepTables (some (("local", broken) ∷ []))
broken-AllKeepTables =
    one-AllKeepTables broken
      (record { db = λ t sk w. refl; net = λ t sk w. refl; now = λ t sk w. refl })

abbrev broken_scheduler : Scheduler World
broken_scheduler = new_scheduler (("local", broken) ∷ []) Postgres.store

abbrev launch_error : Error
launch_error = wrap "dispatch failed (task rolled back): " (
    wrapf (plain "scheduler: dispatch on " ∷ quoted "local" ∷ plain ": " ∷ []) (error "no capacity")
      [])

abbrev launched_world : World
launched_world =
    (launch library_functions the_server broken_scheduler (task_of "t1" 10 pending) echo
      (world_of busy_db)).1

launch_fails :
    launch library_functions the_server broken_scheduler
      (task_of "t1" 10 pending)
      echo
      (world_of busy_db)
    ≡ (err launch_error, launched_world)
unfolding launch handle_or_roll_back roll_back dispatch dispatch_on new_scheduler lookup
launch_fails = refl

t1_stored : lookup "t1" (world_of busy_db).db.tasks ≡ some (task_of "t1" 10 running)
unfolding lookup
t1_stored = refl

launch-IsRolledBack_example : IsRolledBack "t1" (world_of busy_db) launched_world
launch-IsRolledBack_example =
    launch-IsRolledBack library_functions (scheduler_of (some local_only)) rules
      (("local", broken) ∷ []) (task_of "t1" 10 pending) echo (task_of "t1" 10 running)
      (world_of busy_db) launched_world launch_error broken-AllKeepTables refl t1_stored
      launch_fails

abbrev dispatched_world : World
dispatched_world =
    (dispatch (new_scheduler local_only Postgres.store) (task_of "t1" 10 pending) echo
      (world_of busy_db)).1

abbrev started_handle : Handle
started_handle = record { runtime_name = "local"; external_id = "4711" }

dispatch_runs :
    dispatch
      (new_scheduler local_only Postgres.store)
      (task_of "t1" 10 pending)
      echo
      (world_of busy_db)
    ≡ (ok started_handle, dispatched_world)
unfolding dispatch dispatch_on new_scheduler lookup is_absent statement update_task_state set_state
    is_known_state local_runtime Local.dispatch Local.dispatch_from Local.check_capacity
    Local.make_task_dir Local.start_process generate_token rand_read
dispatch_runs = refl

dispatch-eq-ok_example :
    (rt : Runtime World) × (lookup "local" local_only ≡ some rt)
    × IsDispatched rt
        (task_of "t1" 10 pending)
        echo
        started_handle
        (world_of busy_db)
        dispatched_world
dispatch-eq-ok_example =
    dispatch-eq-ok local_only (task_of "t1" 10 pending) echo started_handle (world_of busy_db)
      dispatched_world dispatch_runs
