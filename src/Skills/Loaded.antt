-- ===== src/Skills/Loaded.antt =====
-- The load over a network that fails nothing, beside a description of it that has no loop over the
-- state: the skills that the directory holds, in order.
use hermes_manager.Prelude.{
  ℕ, ◌+◌, String, ◌≡◌, refl, ◌∙◌, sym, ap, subst, true, false, Option, none, some, List, [], ◌∷◌,
  Error, Result, ok, err, length, lookup, insert, lookup-insert, ◌==◌, if◌then◌else◌, Bool-cases,
  inl, inr, arith,
}
use hermes_manager.Storage.{Skill}
use hermes_manager.World.{World}
use hermes_manager.Postgres
use hermes_manager.Postgres.{has_null, upsert_skill}
use hermes_manager.Skills.Held.{held, is_wanted-is_skill_file, file_skill-taken}
use hermes_manager.Skills.Taken.{is_complete, taken, upsert_skill_quiet, upsert_skill_refused}
use hermes_manager.Skills.{
  DirEntry, Files, Load, with_first, is_skill_file, parse_skill_file, load_parsed, load_entry,
  load_entries, load_from_dir,
}

-- The results of the skill files of a directory, in its order.
unfoldable pub results : Files → String → ℕ → List DirEntry → List (Result Skill)
results files dir now [] = []
results files dir now (e ∷ es) =
    let rest = results files dir now es in
    if is_skill_file e
    then taken (parse_skill_file files (files.join dir e.name) now) ∷ rest
    else rest

unfoldable pub skills_in : List (Result Skill) → List Skill
skills_in [] = []
skills_in (ok sk ∷ rs) = sk ∷ skills_in rs
skills_in (err e ∷ rs) = skills_in rs

unfoldable pub first_error : List (Result Skill) → Option Error
first_error [] = none
first_error (ok sk ∷ rs) = first_error rs
first_error (err e ∷ rs) = some e

-- The last skill of a name.
unfoldable pub last_named : String → List Skill → Option Skill
last_named name [] = none
last_named name (sk ∷ sks) = elim (last_named name sks) [
  | some later ↦ some later
  | none ↦ if sk.name == name then some sk else none
]

abbrev pub or_else : {A : Type 0} → Option A → Option A → Option A
or_else (some a) b = some a
or_else none b = b

-- What a load leaves: the world, but for the table of the skills.
pub record IsLoaded (rs : List (Result Skill)) (load : Load) (n : ℕ) (first : Option Error)
    (w w' : World) : Type 0 where
  pub count : load.0 ≡ n + length (skills_in rs)
  pub error : load.1 ≡ or_else first (first_error rs)
  pub skills :
      (name : String)
      → lookup name w'.db.skills
        ≡ or_else (last_named name (skills_in rs)) (lookup name w.db.skills)
  pub rest : w' ≡ record w { db = record w.db { skills = w'.db.skills } }

or_else-none : {A : Type 0} (o : Option A) → o ≡ or_else o none
or_else-none none = refl
or_else-none (some a) = refl

module _ (rs : List (Result Skill)) (load : Load) (n : ℕ) (w w' : World) where
  -- A load behind a file that gave an error, and behind one that gave a skill.
  behind_error :
      (e : Error) (first : Option Error)
      → IsLoaded rs load (with_first (n, first) e).0 (with_first (n, first) e).1 w w'
      → IsLoaded (err e ∷ rs) load n first w w'
  unfolding skills_in first_error
  behind_error e none l = record {
    count = l.count;
    error = l.error;
    skills = l.skills;
    rest = l.rest;
  }
  behind_error e (some f) l = record {
    count = l.count;
    error = l.error;
    skills = l.skills;
    rest = l.rest;
  }

  behind_skill :
      (sk : Skill) (first : Option Error)
      → IsLoaded rs load
          (n + 1)
          first
          (record w { db = record w.db { skills = insert sk.name sk w.db.skills } })
          w'
      → IsLoaded (ok sk ∷ rs) load n first w w'
  unfolding skills_in first_error last_named
  behind_skill sk first l = record {
    count = l.count ∙ omega arith;
    error = l.error;
    skills = λ name. l.skills name ∙ ground (arith, lookup-insert sk.name name sk w.db.skills);
    rest = l.rest;
  }

module _ (files : Files) (dir : String) where
  -- One file, by its error and by its result.
  load_error-IsLoaded :
      (es : List DirEntry) (n : ℕ) (first : Option Error) (now : ℕ) (w : World) (e : Error)
      → w.net ≡ []
      → w.now ≡ now
      → ((n' : ℕ) (first' : Option Error) (v : World)
          → v.net ≡ []
          → v.now ≡ now
          → IsLoaded
              (results files dir now es)
              (load_entries files Postgres.store dir es (n', first') v).0
              n'
              first'
              v
              (load_entries files Postgres.store dir es (n', first') v).1)
      → let (load, v) = load_parsed files Postgres.store (n, first) (err e) w in
        IsLoaded
          (err e ∷ results files dir now es)
          (load_entries files Postgres.store dir es load v).0
          n
          first
          w
          (load_entries files Postgres.store dir es load v).1
  load_error-IsLoaded es n none now w e quiet same go =
      behind_error (results files dir now es) _ n w _ e none (go n (some e) w quiet same)
  load_error-IsLoaded es n (some f) now w e quiet same go =
      behind_error (results files dir now es) _ n w _ e (some f) (go n (some f) w quiet same)

  load_parsed-IsLoaded :
      (es : List DirEntry) (n : ℕ) (first : Option Error) (now : ℕ) (w : World) (r : Result Skill)
      → w.net ≡ []
      → w.now ≡ now
      → ((n' : ℕ) (first' : Option Error) (v : World)
          → v.net ≡ []
          → v.now ≡ now
          → IsLoaded
              (results files dir now es)
              (load_entries files Postgres.store dir es (n', first') v).0
              n'
              first'
              v
              (load_entries files Postgres.store dir es (n', first') v).1)
      → let (load, v) = load_parsed files Postgres.store (n, first) r w in
        IsLoaded
          (taken r ∷ results files dir now es)
          (load_entries files Postgres.store dir es load v).0
          n
          first
          w
          (load_entries files Postgres.store dir es load v).1
  unfolding taken
  load_parsed-IsLoaded es n first now w (err e) quiet same go =
      load_error-IsLoaded es n first now w e quiet same go
  load_parsed-IsLoaded es n first now w (ok sk) quiet same go = elim (Bool-cases (is_complete sk)) [
    | inl complete ↦
        rw (complete, upsert_skill_quiet sk w quiet complete)
          (behind_skill (results files dir now es) _ n w _ sk first (go (n + 1) first _ quiet same))
    | inr partial ↦
        rw (partial, upsert_skill_refused sk w quiet partial)
          (load_error-IsLoaded es n first now w _ quiet same go)
  ]

  load_entry_other :
      (e : DirEntry) (load : Load) (w : World)
      → is_skill_file e ≡ false
      → load_entry files Postgres.store dir e load w ≡ (load, w)
  unfolding load_entry
  load_entry_other e load w other = rw (other, load_entry) refl

  load_entry_file :
      (e : DirEntry) (load : Load) (now : ℕ) (w : World)
      → is_skill_file e ≡ true
      → w.now ≡ now
      → load_entry files Postgres.store dir e load w
        ≡ load_parsed files Postgres.store load
            (parse_skill_file files (files.join dir e.name) now)
            w
  unfolding load_entry
  load_entry_file e load now w wanted same =
      rw (wanted, load_entry)
        (ap
          (λ t.
            load_parsed files Postgres.store load (parse_skill_file files (files.join dir e.name) t)
              w)
          same)

  load_entries-IsLoaded :
      (es : List DirEntry) (n : ℕ) (first : Option Error) (now : ℕ) (w : World)
      → w.net ≡ []
      → w.now ≡ now
      → IsLoaded
          (results files dir now es)
          (load_entries files Postgres.store dir es (n, first) w).0
          n
          first
          w
          (load_entries files Postgres.store dir es (n, first) w).1
  unfolding load_entries results skills_in first_error last_named
  load_entries-IsLoaded [] n first now w quiet same = record {
    count = omega arith;
    error = or_else-none first;
    skills = λ name. refl;
    rest = refl;
  }
  load_entries-IsLoaded (e ∷ es) n first now w quiet same =
      let go_on = λ (rs : List (Result Skill)) (q : Load × World).
        let (load, v) = load_entries files Postgres.store dir es q.0 q.1 in
        IsLoaded rs load n first w v in
      elim (Bool-cases (is_skill_file e)) [
        | inr other ↦ rw (other) (
            subst (go_on (results files dir now es)) (sym (load_entry_other e (n, first) w other))
              (load_entries-IsLoaded es n first now w quiet same))
        | inl wanted ↦ rw (wanted) (
            subst
              (go_on (
                taken (parse_skill_file files (files.join dir e.name) now)
                ∷ results files dir now es))
              (sym (load_entry_file e (n, first) now w wanted same))
              (load_parsed-IsLoaded es n first now w
                (parse_skill_file files (files.join dir e.name) now) quiet same
                (λ n' first' v. load_entries-IsLoaded es n' first' now v)))
      ]

  held-results : (now : ℕ) (es : List DirEntry) → held files dir now es ≡ results files dir now es
  unfolding held results
  held-results now [] = refl
  held-results now (e ∷ es) =
      let rest = held-results now es in
      rw (is_wanted-is_skill_file e, file_skill-taken files (files.join dir e.name) now, rest) refl

  -- Over a network and a server that fail nothing, `LoadFromDir` of a directory that can be read counts
  -- its skill files that give a skill with all of parameters, required tools and required models (which
  -- may be empty), and returns the error of the first file that gives none: of the parse, or of the
  -- table, which refuses a missing list. Under each name the table then holds the last of those skills,
  -- or the row that was there; nothing else changes.
  pub load_from_dir-IsLoaded :
      (entries : List DirEntry) (w : World)
      → w.net ≡ []
      → files.read_dir dir ≡ ok entries
      → IsLoaded
          (held files dir w.now entries)
          (load_from_dir files Postgres.store dir w).0
          0
          none
          w
          (load_from_dir files Postgres.store dir w).1
  unfolding load_from_dir
  load_from_dir-IsLoaded entries w quiet read =
      rw (read, load_from_dir, held-results w.now entries)
        (load_entries-IsLoaded entries 0 none w.now w quiet refl)
