-- ===== src/Examples/Lifecycle.antt =====
-- The making of a task, its failures and its end on small inputs.
use hermes_manager.Prelude.{
  ◌≡◌, refl, true, none, some, [], ◌∷◌, ok, err, library, wrap, lookup, insert, adjust, is_absent,
}
use hermes_manager.Storage.{Task, Skill, completed, event_type_of}
use hermes_manager.World.{World, Db, rand_read}
use hermes_manager.Policy.{
  evaluate, match_rule, match_conditions, condition_holds, actual_of, decide_action,
}
use hermes_manager.Postgres.{
  get_skill, create_task, insert_task, is_known_state, store_agent_token, upsert_token,
  update_task_state, set_state,
}
use hermes_manager.Postgres.Statement.{statement}
use hermes_manager.Runtime.Drivers.Local.{local_runtime}
use hermes_manager.Runtime.Drivers.Capacity.{local_runtime-KeepsTables}
use hermes_manager.Runtime.Drivers.Local as Local
use hermes_manager.Scheduler.{new_scheduler, names_of, dispatch_on, dispatch}
use hermes_manager.Api.Server.{generate_id, generate_token, encode_hex, hex_digit}
use hermes_manager.Api.TaskService
use hermes_manager.Api.TaskService.{
  CreateTaskResult, check_policy, policy_result, policy_request, new_task, admit, persist,
  issue_token, finish, launch, handle_or_roll_back,
}
use hermes_manager.Api.TaskService.Steps.{server}
use hermes_manager.Api.TaskService.Success.{scheduler_of}
use hermes_manager.Api.TaskService.Live.{Starts, create_task-returns}
use hermes_manager.Api.TaskService.Stranded.{create_task_strands}
use hermes_manager.Api.Events.{
  CreateEventRequest, EventPost, bearer_token, effect_of, finishes, handle_create_event,
}
use hermes_manager.Api.Events.Transitions.{IsClosed}
use hermes_manager.Api.Lifecycle.{created_task-finishes}
use hermes_manager.Examples.Data.{library_functions, machine, echo, world_of, empty_db, local_only}
use hermes_manager.Examples.Requests.{
  rules, the_server, request_of, created_result, created_world, created_run, fresh_world,
  local_only-AllKeepTables,
}

-- The task of the request, and the world in which the local driver is to start it.
abbrev ann_task : Task
ann_task = new_task (request_of "ann") echo "task-01" 100

abbrev after_token : Db → World
after_token db = record fresh_world { db = db; random = some (3 ∷ []) ∷ [] }

local_only-Starts : (db : Db) → Starts (some local_only) ann_task echo (after_token db)
unfolding lookup local_runtime Local.dispatch Local.dispatch_from Local.check_capacity
    Local.make_task_dir Local.start_process generate_token rand_read encode_hex hex_digit
local_only-Starts db = (local_runtime machine, refl, local_runtime-KeepsTables machine, _, _, refl)

ann_allowed :
    check_policy library_functions.format_float rules (policy_request (request_of "ann") echo)
    ≡ ok tt
unfolding check_policy policy_result evaluate match_rule match_conditions condition_holds actual_of
    decide_action
ann_allowed = refl

echo_there : lookup "echo" fresh_world.db.skills ≡ some echo
unfolding lookup
echo_there = refl

task_01_free : is_absent "task-01" fresh_world.db.tasks ≡ true
unfolding is_absent lookup
task_01_free = refl

create_task-returns_example :
    (r : CreateTaskResult) × (w' : World) × (TaskService.create_task library_functions
        (server library_functions (scheduler_of (some local_only)) rules)
        (request_of "ann")
        fresh_world
      ≡ (ok r, w'))
    × (w'.net ≡ [])
unfolding encode_hex hex_digit
create_task-returns_example =
    create_task-returns library_functions rules (some local_only) (request_of "ann") echo (1 ∷ [])
      (2 ∷ []) (some (3 ∷ []) ∷ []) fresh_world refl refl local_only-Starts refl task_01_free
      echo_there ann_allowed refl

-- One identifier, and then no random bytes.
abbrev poor_world : World
poor_world = record (world_of empty_db) { random = some (1 ∷ []) ∷ none ∷ [] }

abbrev stranded_task : Task
stranded_task = new_task (request_of "ann") echo "task-01" 100

abbrev persisted_world : World
persisted_world = (persist library_functions the_server (request_of "ann") echo poor_world).1

abbrev stranded_world : World
stranded_world = (issue_token library_functions the_server "task-01" persisted_world).1

poor_admitted :
    admit library_functions the_server (request_of "ann") poor_world ≡ (ok echo, poor_world)
unfolding admit get_skill statement lookup check_policy policy_result evaluate match_rule
    match_conditions condition_holds actual_of decide_action
poor_admitted = refl

poor_persisted :
    persist library_functions the_server (request_of "ann") echo poor_world
    ≡ (ok stranded_task, persisted_world)
unfolding persist generate_id encode_hex hex_digit rand_read create_task insert_task is_known_state
    statement lookup is_absent insert
poor_persisted = refl

no_token :
    issue_token library_functions the_server "task-01" persisted_world
    ≡ (err (wrap "failed to generate token: " (library "crypto/rand")), stranded_world)
unfolding issue_token generate_token persist generate_id encode_hex hex_digit rand_read create_task
    insert_task is_known_state statement lookup is_absent insert
no_token = refl

create_task_strands_example :
    (TaskService.create_task library_functions the_server (request_of "ann") poor_world
      ≡ (err (wrap "failed to generate token: " (library "crypto/rand")), stranded_world))
    × (lookup "task-01" stranded_world.db.tasks
        ≡ some (record (new_task (request_of "ann") echo "task-01" 100) { updated_at = 100 }))
create_task_strands_example =
    create_task_strands library_functions (scheduler_of (some local_only)) rules (request_of "ann")
      echo stranded_task (wrap "failed to generate token: " (library "crypto/rand")) poor_world
      poor_world persisted_world stranded_world poor_admitted poor_persisted no_token

abbrev done_event : CreateEventRequest
done_event = record { id = "e1"; task_id = "task-01"; type = "task.completed"; payload = "{}" }

abbrev done_post : EventPost
done_post = record { authorization = "Bearer 02"; body = ok done_event }

created_world-ready : (created_world.net ≡ []) × (is_absent "e1" created_world.db.events ≡ true)
unfolding TaskService.create_task admit check_policy policy_result evaluate match_rule
    match_conditions condition_holds actual_of decide_action persist issue_token finish launch
    handle_or_roll_back generate_id generate_token encode_hex hex_digit rand_read get_skill
    create_task insert_task is_known_state store_agent_token upsert_token update_task_state
    set_state statement dispatch dispatch_on new_scheduler names_of lookup insert adjust is_absent
    local_runtime Local.dispatch Local.dispatch_from Local.check_capacity Local.make_task_dir
    Local.start_process
created_world-ready = (refl, refl)

done_bearer : bearer_token "Bearer 02" ≡ some "02"
unfolding bearer_token
done_bearer = refl

done_effect : effect_of (event_type_of "task.completed") ≡ finishes completed
unfolding effect_of
done_effect = refl

created_task-finishes_example :
    ((handle_create_event library_functions the_server done_post created_world).0.status ≡ 201)
    × ((skill : Skill) × (lookup "echo" fresh_world.db.skills ≡ some skill)
        × (lookup "task-01"
              (handle_create_event library_functions the_server done_post created_world).1.db.tasks
            ≡ some (record (new_task (request_of "ann") skill "task-01" 100) {
              state = completed;
              updated_at = created_world.now;
            })))
    × IsClosed "task-01"
        (handle_create_event library_functions the_server done_post created_world).1.db
created_task-finishes_example =
    created_task-finishes library_functions rules (some local_only) (request_of "ann")
      created_result done_post done_event completed fresh_world created_world
      local_only-AllKeepTables created_run created_world-ready.0 done_bearer refl refl refl refl
      refl created_world-ready.1 done_effect
