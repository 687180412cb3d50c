-- ===== src/Skills/Partial.antt =====
-- The count and the error of a load over any store, whatever fails.
use hermes_manager.Prelude.{
  ℕ, suc, ◌+◌, ◌≤◌, String, ◌≡◌, refl, subst, ◌↔◌, Bool, true, false, ◌&&◌, Option, none, some,
  List, [], ◌∷◌, Error, Result, ok, err, eqb, if◌then◌else◌, Bool-cases, inl, inr, arith,
}
use hermes_manager.Storage.{Skill, Store}
use hermes_manager.World.{World}
use hermes_manager.Skills.{
  DirEntry, Files, Load, with_first, is_skill_file, upserted, load_parsed, load_entry, load_entries,
  load_from_dir,
}

unfoldable pub count_files : List DirEntry → ℕ
count_files [] = 0
count_files (e ∷ es) = let rest = count_files es in if is_skill_file e then suc rest else rest

abbrev is_none : {A : Type 0} → Option A → Bool
is_none none = true
is_none (some a) = false

-- What a load makes of a count and a first error over some number of files.
record IsTally (files : ℕ) (before after : Load) : Type 0 where
  low : before.0 ≤ after.0
  high : after.0 ≤ before.0 + files
  complete : is_none after.1 ≡ (is_none before.1 && eqb after.0 (before.0 + files))

IsTally-trans : (m n : ℕ) (a b c : Load) → IsTally m a b → IsTally n b c → IsTally (m + n) a c
IsTally-trans m n (i, x) (j, y) (k, z) p q =
    let p-low = p.low in
    let p-high = p.high in
    let q-low = q.low in
    let q-high = q.high in
    record {
      low = omega arith;
      high = omega arith;
      complete = ground (arith, p.complete, q.complete);
    }

IsTally-self : (a : Load) → IsTally 0 a a
IsTally-self (n, none) = record { low = omega arith; high = omega arith; complete = ground arith }
IsTally-self (n, some e) = record { low = omega arith; high = omega arith; complete = refl }

IsTally-error : (a : Load) (e : Error) → IsTally 1 a (with_first a e)
IsTally-error (n, none) e = record {
  low = omega arith;
  high = omega arith;
  complete = ground arith;
}
IsTally-error (n, some f) e = record { low = omega arith; high = omega arith; complete = refl }

module _ (files : Files) (store : Store World) (dir : String) where
  upserted-IsTally :
      (sk : Skill) (load : Load) (r : Result (Unit {0}) × World)
      → IsTally 1 load (upserted files store sk load r).0
  upserted-IsTally sk (n, none) (ok _, w) = record {
    low = omega arith;
    high = omega arith;
    complete = ground arith;
  }
  upserted-IsTally sk (n, some e) (ok _, w) = record {
    low = omega arith;
    high = omega arith;
    complete = refl;
  }
  upserted-IsTally sk load (err e, w) = IsTally-error load _

  load_parsed-IsTally :
      (load : Load) (r : Result Skill) (w : World)
      → IsTally 1 load (load_parsed files store load r w).0
  load_parsed-IsTally load (err e) w = IsTally-error load e
  load_parsed-IsTally load (ok sk) w = upserted-IsTally sk load (store.upsert_skill sk w)

  load_entry-IsTally :
      (e : DirEntry) (load : Load) (w : World)
      → IsTally (if is_skill_file e then 1 else 0) load (load_entry files store dir e load w).0
  unfolding load_entry
  load_entry-IsTally e load w = elim (Bool-cases (is_skill_file e)) [
    | inl wanted ↦ rw (wanted, load_entry) (load_parsed-IsTally load _ w)
    | inr other ↦ rw (other, load_entry) (IsTally-self load)
  ]

  load_entries-IsTally :
      (es : List DirEntry) (load : Load) (w : World)
      → IsTally (count_files es) load (load_entries files store dir es load w).0
  unfolding load_entries count_files
  load_entries-IsTally [] load w = IsTally-self load
  load_entries-IsTally (e ∷ es) load w =
      let (load', w') = load_entry files store dir e load w in
      let both =
        IsTally-trans (if is_skill_file e then 1 else 0) (count_files es) load load' _
          (load_entry-IsTally e load w) (load_entries-IsTally es load' w') in
      subst (λ n. IsTally n load (load_entries files store dir es load' w').0) (ground arith) both

  -- Over any store and any answers of the file system and of the parser, a load of a directory that can
  -- be read counts at most its skill files, and it returns no error exactly if it counts all of them.
  pub load_from_dir-Counts :
      (entries : List DirEntry) (w : World)
      → files.read_dir dir ≡ ok entries
      → let (loaded, first) = (load_from_dir files store dir w).0 in
        (loaded ≤ count_files entries) × ((first ≡ none) ↔ (loaded ≡ count_files entries))
  unfolding load_from_dir
  load_from_dir-Counts entries w read =
      rw (read, load_from_dir)
        (tally (load_entries files store dir entries (0, none) w).0
          (load_entries-IsTally entries (0, none) w))
    where
      tally :
          (after : Load)
          → IsTally (count_files entries) (0, none) after
          → (after.0 ≤ count_files entries) × ((after.1 ≡ none) ↔ (after.0 ≡ count_files entries))
      tally (n, none) t =
          let high = t.high in (omega arith, ((λ _. ground (arith, t.complete)), λ _. refl))
      tally (n, some e) t =
          let high = t.high in (omega arith, ((λ h. cc), λ h. absurd (ground (arith, t.complete))))
