-- ===== src/Skills.antt =====
-- internal/skills/loader.go. The file system, `filepath.Join` and the YAML parser are parameters; the
-- entries come in the order of `os.ReadDir`.
pub mod Taken
pub mod Held
pub mod Loaded
pub mod Partial
use hermes_manager.Prelude.{
  ℕ, ◌+◌, String, Bool, Option, none, some, List, [], ◌∷◌, Error, errorf, wrapf, wrap, plain,
  Result, ok, err, to_lower, ext, ◌==◌, ◌||◌, not, ◌&&◌, if◌then◌else◌,
}
use hermes_manager.Storage.{Slice, Skill, Param, Store}
use hermes_manager.World.{World}

pub record SkillMeta : Type 0 where
  pub name : String
  pub version : String

pub record SkillSpec : Type 0 where
  pub description : String
  pub entrypoint : String
  pub parameters : Slice Param
  pub required_tools : Slice String
  pub required_models : Slice String

pub record SkillFile : Type 0 where
  pub api_version : String
  pub kind : String
  pub metadata : SkillMeta
  pub spec : SkillSpec

pub record DirEntry : Type 0 where
  pub name : String
  pub is_dir : Bool

-- What the loader calls of the operating system and of the YAML library.
pub record Files : Type 0 where
  pub read_dir : String → Result (List DirEntry)
  pub read_file : String → Result String
  pub unmarshal : String → Result SkillFile
  pub join : String → String → String

-- The count, and the first error if there was one.
abbrev pub Load : Type 0
Load = ℕ × Option Error

abbrev pub with_first : Load → Error → Load
with_first (loaded, none) e = (loaded, some e)
with_first (loaded, some first) e = (loaded, some first)

unfoldable pub is_skill_file : DirEntry → Bool
is_skill_file entry =
    let suffix = to_lower (ext entry.name) in
    not entry.is_dir && (suffix == ".yaml" || suffix == ".yml")

abbrev pub skill_of : String → ℕ → SkillFile → Skill
skill_of path now sf = record {
  name = sf.metadata.name;
  version = sf.metadata.version;
  description = sf.spec.description;
  entrypoint = sf.spec.entrypoint;
  parameters = sf.spec.parameters;
  required_tools = sf.spec.required_tools;
  required_models = sf.spec.required_models;
  source_file = path;
  loaded_at = now;
}

abbrev pub named_skill : String → ℕ → SkillFile → Result Skill
named_skill path now sf =
    if sf.metadata.name == ""
    then err (errorf (plain "skills: file " ∷ plain path ∷ plain " has no metadata.name" ∷ []))
    else ok (skill_of path now sf)

abbrev pub unmarshalled : String → ℕ → Result SkillFile → Result Skill
unmarshalled path now (err e) =
    err (wrapf (plain "skills: parse YAML " ∷ plain path ∷ plain ": " ∷ []) e [])
unmarshalled path now (ok sf) = named_skill path now sf

module _ (files : Files) where
  abbrev pub parsed_text : String → ℕ → Result String → Result Skill
  parsed_text path now (err e) =
      err (wrapf (plain "skills: read file " ∷ plain path ∷ plain ": " ∷ []) e [])
  parsed_text path now (ok text) = unmarshalled path now (files.unmarshal text)

  unfoldable pub parse_skill_file : String → ℕ → Result Skill
  parse_skill_file path now = parsed_text path now (files.read_file path)

  module _ (store : Store World) where
    abbrev pub upserted : Skill → Load → Result (Unit {0}) × World → Load × World
    upserted sk (loaded, first) (ok _, w) = ((loaded + 1, first), w)
    upserted sk load (err e, w) = (
      with_first load (wrapf (plain "skills: upsert " ∷ plain sk.name ∷ plain ": " ∷ []) e []),
      w,
    )

    abbrev pub load_parsed : Load → Result Skill → World → Load × World
    load_parsed load (err e) w = (with_first load e, w)
    load_parsed load (ok sk) w = upserted sk load (store.upsert_skill sk w)

    -- The body of the loop.
    unfoldable pub load_entry : String → DirEntry → Load → World → Load × World
    load_entry dir entry load w =
        if is_skill_file entry
        then load_parsed load (parse_skill_file (files.join dir entry.name) w.now) w
        else (load, w)

    unfoldable pub load_entries : String → List DirEntry → Load → World → Load × World
    load_entries dir [] load w = (load, w)
    load_entries dir (entry ∷ entries) load w =
        let (load', w') = load_entry dir entry load w in load_entries dir entries load' w'

    abbrev pub load_listed : String → Result (List DirEntry) → World → Load × World
    load_listed dir (err e) w =
        ((0, some (wrapf (plain "skills: read dir " ∷ plain dir ∷ plain ": " ∷ []) e [])), w)
    load_listed dir (ok entries) w = load_entries dir entries (0, none) w

    unfoldable pub load_from_dir : String → World → Load × World
    load_from_dir dir w = load_listed dir (files.read_dir dir) w
