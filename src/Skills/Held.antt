-- ===== src/Skills/Held.antt =====
-- The skills that a directory holds, described file by file.
use hermes_manager.Prelude.{
  ℕ, String, ◌≡◌, refl, Bool, true, false, none, some, List, [], ◌∷◌, errorf, wrapf, plain, library,
  Result, ok, err, to_lower, ext, ◌==◌, ◌||◌, if◌then◌else◌, Bool-cases, Option-cases, inl, inr,
}
use hermes_manager.Storage.{Skill}
use hermes_manager.Skills.{
  DirEntry, Files, SkillFile, is_skill_file, named_skill, unmarshalled, parsed_text,
  parse_skill_file,
}
use hermes_manager.Skills.Taken.{is_complete, taken}

-- A file, and no directory, with the suffix ".yaml" or ".yml" in any case.
unfoldable pub is_wanted : DirEntry → Bool
is_wanted e = elim e.is_dir [
  | true ↦ false
  | false ↦ (to_lower (ext e.name) == ".yaml") || (to_lower (ext e.name) == ".yml")
]

-- The skill of a file's text: it has a name, and lists for the parameters, tools and models.
unfoldable pub skill_in : String → ℕ → SkillFile → Result Skill
skill_in path now sf =
    if sf.metadata.name == ""
    then err (errorf (plain "skills: file " ∷ plain path ∷ plain " has no metadata.name" ∷ []))
    else (let refused =
          wrapf (plain "skills: upsert " ∷ plain sf.metadata.name ∷ plain ": " ∷ [])
            (library "null value violates not-null constraint") [] in
        elim sf.spec.parameters [
          | none ↦ err refused
          | some parameters ↦ elim sf.spec.required_tools [
            | none ↦ err refused
            | some tools ↦ elim sf.spec.required_models [
              | none ↦ err refused
              | some models ↦ ok (record {
                name = sf.metadata.name;
                version = sf.metadata.version;
                description = sf.spec.description;
                entrypoint = sf.spec.entrypoint;
                parameters = some parameters;
                required_tools = some tools;
                required_models = some models;
                source_file = path;
                loaded_at = now;
              })
            ]
          ]
        ])

unfoldable pub file_skill : Files → String → ℕ → Result Skill
file_skill files path now = elim (files.read_file path) [
  | err e ↦ err (wrapf (plain "skills: read file " ∷ plain path ∷ plain ": " ∷ []) e [])
  | ok text ↦ elim (files.unmarshal text) [
    | err e ↦ err (wrapf (plain "skills: parse YAML " ∷ plain path ∷ plain ": " ∷ []) e [])
    | ok sf ↦ skill_in path now sf
  ]
]

-- What each of the files gives, in the order of the directory.
unfoldable pub held : Files → String → ℕ → List DirEntry → List (Result Skill)
held files dir now [] = []
held files dir now (e ∷ es) =
    let rest = held files dir now es in
    if is_wanted e then file_skill files (files.join dir e.name) now ∷ rest else rest

pub is_wanted-is_skill_file : (e : DirEntry) → is_wanted e ≡ is_skill_file e
unfolding is_wanted is_skill_file
is_wanted-is_skill_file e = elim (Bool-cases e.is_dir) [
  | inl dir ↦ rw dir refl
  | inr file ↦ rw file refl
]

skill_in-taken :
    (path : String) (now : ℕ) (sf : SkillFile)
    → skill_in path now sf ≡ taken (named_skill path now sf)
unfolding skill_in taken is_complete
skill_in-taken path now sf = elim (Bool-cases (sf.metadata.name == "")) [
  | inl unnamed ↦ rw unnamed refl
  | inr named ↦ rw named (elim (Option-cases sf.spec.parameters) [
    | inl a ↦ rw a refl
    | inr (_, a) ↦ rw a (elim (Option-cases sf.spec.required_tools) [
      | inl b ↦ rw b refl
      | inr (_, b) ↦ rw b (elim (Option-cases sf.spec.required_models) [
        | inl c ↦ rw c refl
        | inr (_, c) ↦ rw c refl
      ])
    ])
  ])
]

module _ (files : Files) (path : String) (now : ℕ) where
  unmarshalled-taken :
      (r : Result SkillFile)
      → (elim r [
        | err e ↦ err (wrapf (plain "skills: parse YAML " ∷ plain path ∷ plain ": " ∷ []) e [])
        | ok sf ↦ skill_in path now sf
      ])
        ≡ taken (unmarshalled path now r)
  unfolding taken
  unmarshalled-taken (err e) = refl
  unmarshalled-taken (ok sf) = skill_in-taken path now sf

  text-taken :
      (r : Result String)
      → (elim r [
        | err e ↦ err (wrapf (plain "skills: read file " ∷ plain path ∷ plain ": " ∷ []) e [])
        | ok text ↦ elim (files.unmarshal text) [
          | err e ↦ err (wrapf (plain "skills: parse YAML " ∷ plain path ∷ plain ": " ∷ []) e [])
          | ok sf ↦ skill_in path now sf
        ]
      ])
        ≡ taken (parsed_text files path now r)
  unfolding taken
  text-taken (err e) = refl
  text-taken (ok text) = unmarshalled-taken (files.unmarshal text)

  pub file_skill-taken : file_skill files path now ≡ taken (parse_skill_file files path now)
  unfolding file_skill parse_skill_file
  file_skill-taken = text-taken (files.read_file path)
