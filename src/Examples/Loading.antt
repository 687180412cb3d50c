-- ===== src/Examples/Loading.antt =====
-- A directory of skills: a good file, a file that lacks a list, a text and a directory.
use Prim.Native.String
use hermes_manager.Prelude.{
  String, ◌≡◌, refl, true, false, none, some, List, [], ◌∷◌, ok, ◌==◌, if◌then◌else◌, ext, to_lower,
  lower, has_slash, trim_space, trim_left, trim_right, is_space,
}
use hermes_manager.Postgres
use hermes_manager.Skills.{DirEntry, Files, SkillFile, load_from_dir, is_skill_file}
use hermes_manager.Skills.Held.{held}
use hermes_manager.Skills.Loaded.{IsLoaded, load_from_dir-IsLoaded}
use hermes_manager.Skills.Partial.{count_files}
use hermes_manager.Examples.Data.{world_of, empty_db}

-- The skill "echo" has its three lists, any other lacks the required tools.
abbrev skill_file : String → SkillFile
skill_file name = record {
  api_version = "hermesmanager.io/v1alpha1";
  kind = "Skill";
  metadata = record { name = name; version = "2" };
  spec = record {
    description = "";
    entrypoint = "run.py";
    parameters = some [];
    required_tools = if name == "echo" then some [] else none;
    required_models = some [];
  };
}

abbrev skill_entries : List DirEntry
skill_entries =
    record { name = "a.yaml"; is_dir = false }
    ∷ record { name = "b.YML"; is_dir = false }
    ∷ record { name = "notes.txt"; is_dir = false }
    ∷ record { name = "old.yaml"; is_dir = true }
    ∷ []

abbrev pub skill_files : Files
skill_files = record {
  read_dir = λ dir. ok skill_entries;
  read_file = λ path. ok path;
  unmarshal = λ text. ok (skill_file (if text == "/skills/a.yaml" then "echo" else "bare"));
  join = λ dir name. String.◌++◌ dir (String.◌++◌ "/" name);
}

load_from_dir-IsLoaded_example :
    IsLoaded
      (held skill_files "/skills" 100 skill_entries)
      (load_from_dir skill_files Postgres.store "/skills" (world_of empty_db)).0
      0
      none
      (world_of empty_db)
      (load_from_dir skill_files Postgres.store "/skills" (world_of empty_db)).1
load_from_dir-IsLoaded_example =
    load_from_dir-IsLoaded skill_files "/skills" skill_entries (world_of empty_db) refl refl

two_files : count_files skill_entries ≡ 2
unfolding count_files is_skill_file ext to_lower lower has_slash
two_files = refl

hidden_ext : ext "a.d/notes" ≡ ""
unfolding ext has_slash
hidden_ext = refl

trimmed : trim_space " \t run echo {} " ≡ "run echo {}"
unfolding trim_space trim_left trim_right is_space
trimmed = refl
