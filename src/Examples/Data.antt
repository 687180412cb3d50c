-- ===== src/Examples/Data.antt =====
-- A host, a library, a skill and a world to run the program on.
use Prim.Native.String
use hermes_manager.Prelude.{ℕ, String, true, false, none, some, List, [], ◌∷◌, ok, ◌==◌}
use hermes_manager.Storage.{Skill, Task, TaskState, running, pos}
use hermes_manager.World.{World, Host, Db}
use hermes_manager.Policy.{Rule}
use hermes_manager.Runtime.{Runtime}
use hermes_manager.Runtime.Drivers.Local.{Machine, local_runtime}
use hermes_manager.Api.Server.{Library}

abbrev pub library_functions : Library
library_functions = record {
  sha256 = λ s. String.◌++◌ "#" s;
  format_float = λ bits. "0.5";
  quote = λ s. s;
  library_text = λ s. s;
  atoi = λ s. some (pos 250);
  parse_time = λ s. none;
  equal_fold = λ a b. a == b;
}

abbrev pub machine : Machine
machine = record {
  getenv = λ name. "";
  make_dir = λ pattern host. ok "/tmp/task";
  marshal = λ t. ok "{}";
  write_file = λ dir text. ok tt;
  start = λ skill dir. ok 4711;
  itoa = λ n. "4711";
}

abbrev pub echo : Skill
echo = record {
  name = "echo";
  version = "1";
  description = "";
  entrypoint = "/bin/echo";
  parameters = some [];
  required_tools = some [];
  required_models = some ("small" ∷ []);
  source_file = "echo.yaml";
  loaded_at = 1;
}

abbrev pub task_of : String → ℕ → TaskState → Task
task_of id created state = record {
  id = id;
  skill_name = "echo";
  parameters = "{}";
  policy_context = record { user = "ann"; team = "ops"; model_allowed = some ("small" ∷ []) };
  runtime = "local";
  state = state;
  created_at = created;
  updated_at = created;
  deadline_secs = pos 300;
}

abbrev pub idle : Host
idle = record { active = 0; handles = []; running = []; dirs = [] }

abbrev pub world_of : Db → World
world_of db = record {
  db = db;
  net = [];
  random = some (1 ∷ []) ∷ some (2 ∷ []) ∷ some (3 ∷ []) ∷ [];
  now = 100;
  admits = λ text. true;
  scan = λ now. 1 ∷ 0 ∷ [];
  host = idle;
  cluster = record { config_maps = []; jobs = []; secrets = [] };
}

-- Only the skill.
abbrev pub empty_db : Db
empty_db = record { skills = ("echo", echo) ∷ []; tasks = []; events = []; tokens = [] }

-- Two tasks that run, the second behind a revoked token.
abbrev pub busy_db : Db
busy_db = record {
  skills = ("echo", echo) ∷ [];
  tasks = ("t1", task_of "t1" 10 running) ∷ ("t2", task_of "t2" 20 running) ∷ [];
  events = [];
  tokens =
      ("t1", record { token_hash = "#secret"; revoked = false })
      ∷ ("t2", record { token_hash = "#other"; revoked = true })
      ∷ [];
}

abbrev pub local_only : List (String × Runtime World)
local_only = ("local", local_runtime machine) ∷ []

abbrev pub deny_guests : Rule
deny_guests = record { id = "no-guests"; action = "deny"; conditions = ("user", "guest") ∷ [] }
