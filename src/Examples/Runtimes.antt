-- ===== src/Examples/Runtimes.antt =====
-- The registry, the scheduler and the local driver on small inputs.
use hermes_manager.Prelude.{
  ℕ, ◌+◌, ◌%◌, ◌^◌, ◌<◌, String, ◌≡◌, ◌≢◌, refl, false, none, some, List, [], ◌∷◌, ok, pure, length,
  get_elem?, lookup, insert, is_absent, arith, ◌==◌,
}
use hermes_manager.Storage.{pending, pos}
use hermes_manager.World.{World, Process, rand_read}
use hermes_manager.Postgres
use hermes_manager.Runtime.{Runtime, Factory, register, get}
use hermes_manager.Runtime.Registry.{register-get}
use hermes_manager.Runtime.Drivers.Local.{
  check_capacity, make_task_dir, start_process, dispatch_from, without,
}
use hermes_manager.Runtime.Drivers.Capacity.{
  Calls, checked, dispatched, Reach, start, later, IsCounted, Reach-IsCounted,
}
use hermes_manager.Api.Server.{generate_token}
use hermes_manager.Scheduler.{
  Scheduler, new_scheduler, names_of, select_round_robin, select_lowest_load,
}
use hermes_manager.Scheduler.Select.{select_round_robin_lem}
use hermes_manager.Scheduler.LowestLoad.{reports, Answers, select_lowest_load-Answers}
use hermes_manager.Examples.Fractions.{fractions, fractions-IsOrder}
use hermes_manager.Examples.Data.{machine, echo, task_of, world_of, busy_db}

-- A runtime that reports a load and a capacity.
abbrev loaded_runtime : String → ℕ → ℕ → Runtime World
loaded_runtime name active max = record {
  name = name;
  callback_url = "";
  dispatch = λ task skill. pure (record { runtime_name = name; external_id = "x" });
  status = pure (pos active, pos max);
}

abbrev two_runtimes : List (String × Runtime World)
two_runtimes = ("a", loaded_runtime "a" 3 4) ∷ ("b", loaded_runtime "b" 1 4) ∷ []

abbrev two_scheduled : Scheduler World
two_scheduled = new_scheduler two_runtimes Postgres.store

abbrev make_a : Factory World
make_a = pure (loaded_runtime "a" 3 4)

abbrev registered_a : List (String × Factory World)
registered_a = ("a", make_a) ∷ []

registered : register "a" make_a [] ≡ some registered_a
unfolding register is_absent lookup insert
registered = refl

register-get_example :
    (get "a" registered_a ≡ ok make_a)
    × ((other : String) → ("a" == other) ≡ false → get other registered_a ≡ get other [])
    × ((g : Factory World) → register "a" g registered_a ≡ none)
register-get_example = register-get "a" make_a [] registered_a registered

names_are : two_scheduled.rr_names ≡ names_of two_scheduled.runtimes
unfolding new_scheduler
names_are = refl

counter_starts : two_scheduled.rr_index < 2 ^ 64
unfolding new_scheduler
counter_starts = omega arith

two_there : two_scheduled.runtimes ≢ []
unfolding new_scheduler
two_there = λ e. cc

select_round_robin_lem_example :
    (name : String) × (rt : Runtime World) × (get_elem? two_scheduled.rr_names
        (two_scheduled.rr_index % length two_scheduled.rr_names)
      ≡ some name)
    × (lookup name two_scheduled.runtimes ≡ some rt)
    × (select_round_robin two_scheduled
        ≡ (ok (some rt), record two_scheduled { rr_index = (two_scheduled.rr_index + 1) % 2 ^ 64 }))
select_round_robin_lem_example =
    select_round_robin_lem two_scheduled names_are counter_starts two_there

select_lowest_load-Answers_example :
    Answers fractions
      (reports two_scheduled.runtimes (world_of busy_db))
      (select_lowest_load fractions two_scheduled (world_of busy_db)).0
select_lowest_load-Answers_example =
    select_lowest_load-Answers fractions fractions-IsOrder two_scheduled (world_of busy_db)
      two_there

-- Nine processes run.
abbrev nine : List Process
nine =
    let p : Process = record {
      pid = 4711;
      entrypoint = "/bin/echo";
      dir = "/tmp/task";
      task_id = "t0";
      callback_url = "";
      agent_token = "";
    } in
    p ∷ p ∷ p ∷ p ∷ p ∷ p ∷ p ∷ p ∷ p ∷ []

abbrev nine_run : Calls
nine_run = record {
  world = record (world_of busy_db) {
    host = record { active = 9; handles = []; running = nine; dirs = [] };
  };
  pending = [];
}

-- Two calls pass the test before either starts its process.
abbrev both_pending : Calls
both_pending = record {
  world = nine_run.world;
  pending = (task_of "t2" 20 pending, echo) ∷ (task_of "t1" 10 pending, echo) ∷ [];
}

abbrev one_pending : Calls
one_pending = record {
  world = (dispatch_from machine (task_of "t2" 20 pending) echo nine_run.world).1;
  pending = (task_of "t1" 10 pending, echo) ∷ [];
}

abbrev eleven_run : Calls
eleven_run = record {
  world = (dispatch_from machine (task_of "t1" 10 pending) echo one_pending.world).1;
  pending = [];
}

eleven_running : eleven_run.world.host.active ≡ 11
unfolding dispatch_from make_task_dir start_process generate_token rand_read
eleven_running = refl

nine_run-Reach : Reach machine 2 nine_run eleven_run
unfolding check_capacity without
nine_run-Reach =
    later {t = one_pending}
      (later {t = both_pending}
        (later
          {t = record { world = nine_run.world; pending = (task_of "t1" 10 pending, echo) ∷ [] }}
          (later start (checked (task_of "t1" 10 pending) echo (omega arith) refl))
          (checked (task_of "t2" 20 pending) echo (omega arith) refl))
        (dispatched 0 (task_of "t2" 20 pending) echo refl))
      (dispatched 0 (task_of "t1" 10 pending) echo refl)

Reach-IsCounted_example : IsCounted 2 eleven_run
Reach-IsCounted_example =
    Reach-IsCounted machine 2 nine_run eleven_run nine_run-Reach
      (record { count = refl; bound = omega arith })
