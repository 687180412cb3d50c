-- ===== src/Runtime/Drivers/Local.antt =====
-- internal/runtime/local/local.go. The operating system's calls are parameters that return the
-- result or the error. `active` never goes below zero, as each `Add(-1)` follows its `Add(1)`.
use Prim.Native.String
use hermes_manager.Prelude.{
  ℕ, zero, suc, ◌+◌, ◌-◌, String, none, some, List, [], ◌∷◌, get_elem?, Result, ok, err, Exec,
  Error, wrap, wrapf, plain, lift, on_error, ◌>>=◌, ◌>>◌, ◌==◌, not, filter_by, insert, delete, leb,
  if◌then◌else◌,
}
use hermes_manager.Storage.{Task, Skill, PolicyContext, ℤ, pos}
use hermes_manager.World.{World, Host, Process}
use hermes_manager.Runtime.{Runtime, Handle, err_runtime_unavailable}
use hermes_manager.Api.Server.{generate_token}

pub record TaskJson : Type 0 where
  pub task_id : String
  pub skill : String
  pub parameters : String
  pub policy_context : PolicyContext
  pub deadline_seconds : ℤ

-- What the driver calls of the operating system and of Go's library.
pub record Machine : Type 0 where
  -- `os.Getenv`
  pub getenv : String → String
  -- `os.MkdirTemp`, by the pattern
  pub make_dir : String → Host → Result String
  -- `json.Marshal`
  pub marshal : TaskJson → Result String
  -- `os.WriteFile`, by the directory that "task.json" is written to
  pub write_file : String → String → Result (Unit {0})
  -- `cmd.Start`, with the process id
  pub start : Skill → String → Result ℕ
  -- `strconv.Itoa`
  pub itoa : ℕ → String

abbrev pub max_concurrency : ℕ
max_concurrency = 10

abbrev pub task_json : Task → TaskJson
task_json task = record {
  task_id = task.id;
  skill = task.skill_name;
  parameters = task.parameters;
  policy_context = task.policy_context;
  deadline_seconds = task.deadline_secs;
}

-- The port of `New`, and `CallbackURL` over it.
abbrev pub port_or_default : String → String
port_or_default port = if port == "" then "8080" else port

abbrev pub callback_url_of : String → String
callback_url_of port = String.◌++◌ "http://127.0.0.1:" (String.◌++◌ port "/v1/events")

-- `runtime.Add(-1)`, the deleted handle and the removed directory of a process that has ended.
unfoldable pub released : Process → Host → Host
released p h = record {
  active = h.active - 1;
  handles = delete p.task_id h.handles;
  running = h.running;
  dirs = filter_by (λ d. not (d == p.dir)) h.dirs;
}

module _ (m : Machine) where
  abbrev pub at_capacity : ℕ → Error
  at_capacity active = wrapf [] err_runtime_unavailable (
      plain ": local driver at capacity ("
      ∷ plain (m.itoa active)
      ∷ plain "/"
      ∷ plain (m.itoa max_concurrency)
      ∷ plain ")"
      ∷ [])

  unfoldable pub check_capacity : Exec World Unit
  check_capacity w =
      if leb max_concurrency w.host.active then (err (at_capacity w.host.active), w) else (ok tt, w)

  abbrev pub dir_made : World → Result String → Result String × World
  dir_made w (err e) = (err e, w)
  dir_made w (ok dir) = (ok dir, record w { host = record w.host { dirs = dir ∷ w.host.dirs } })

  unfoldable pub make_task_dir : String → Exec World String
  make_task_dir task_id w =
      dir_made w (m.make_dir (String.◌++◌ "hermesmanager-task-" (String.◌++◌ task_id "-")) w.host)

  abbrev pub process_of : Task → Skill → String → String → ℕ → Process
  process_of task skill dir token pid = record {
    pid = pid;
    entrypoint = skill.entrypoint;
    dir = dir;
    task_id = task.id;
    callback_url = callback_url_of (port_or_default (m.getenv "HERMESMANAGER_PORT"));
    agent_token = token;
  }

  abbrev pub with_process : Process → Host → Host
  with_process p h = record {
    active = h.active + 1;
    handles = insert p.task_id p.pid h.handles;
    running = p ∷ h.running;
    dirs = h.dirs;
  }

  abbrev pub process_started :
      Task → Skill → String → String → World → Result ℕ → Result Handle × World
  process_started task skill dir token w (err e) = (err e, w)
  process_started task skill dir token w (ok pid) = (
    ok (record { runtime_name = "local"; external_id = m.itoa pid }),
    record w { host = with_process (process_of task skill dir token pid) w.host },
  )

  unfoldable pub start_process : Task → Skill → String → String → Exec World Handle
  start_process task skill dir token w = process_started task skill dir token w (m.start skill dir)

  -- `Dispatch` behind the test of the capacity.
  unfoldable pub dispatch_from : Task → Skill → Exec World Handle
  dispatch_from task skill = do
    dir ← on_error (wrap "local: create temp dir: ") (make_task_dir task.id)
    data_text ← on_error (wrap "local: marshal task json: ") (lift (m.marshal (task_json task)))
    on_error (wrap "local: write task.json: ") (lift (m.write_file dir data_text))
    token ← generate_token (wrap "local: generate agent token: ")
    on_error (wrap "local: start process: ") (start_process task skill dir token)

  -- The call as a whole; Capacity has calls that overlap.
  unfoldable pub dispatch : Task → Skill → Exec World Handle
  dispatch task skill = do check_capacity; dispatch_from task skill

  unfoldable pub status : Exec World (ℤ × ℤ)
  status w = (ok (pos w.host.active, pos max_concurrency), w)

  unfoldable pub local_runtime : Runtime World
  local_runtime = record {
    name = "local";
    callback_url = callback_url_of (port_or_default (m.getenv "HERMESMANAGER_PORT"));
    dispatch = dispatch;
    status = status;
  }

-- A list without the element at a place.
unfoldable pub without : {A : Type 0} → ℕ → List A → List A
without n [] = []
without zero (x ∷ xs) = xs
without (suc n) (x ∷ xs) = x ∷ without n xs

-- The process at a place ends, and the goroutine that waits for it runs to its end.
unfoldable pub process_exits : ℕ → World → World
process_exits n w = elim (get_elem? w.host.running n) [
  | none ↦ w
  | some p ↦ record w { host = released p (record w.host { running = without n w.host.running }) }
]
