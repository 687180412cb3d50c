-- ===== src/Policy/Reload.antt =====
-- Loading and reloading the policy file.
use hermes_manager.Prelude.{String, ◌≡◌, ◌≢◌, none, some, [], arith, eq_iff, Error, ok, false, ◌==◌}
use hermes_manager.Policy.{Engine, PolicyFile, load_from_file, reload, built, new_engine}

module _ (read_rules : String → PolicyFile) where
  load_keeps :
      (path : String) (e : Engine) (cause : Error)
      → (load_from_file read_rules path e).0 ≡ some cause
      → (load_from_file read_rules path e).1 ≡ e
  unfolding load_from_file
  load_keeps path e cause h = ground arith

  load_again :
      (path : String) (e e' : Engine)
      → load_from_file read_rules path e ≡ (none, e')
      → (e'.file_path ≡ path) × (load_from_file read_rules path e' ≡ (none, e'))
  unfolding load_from_file
  load_again path e e' h = ground arith

  -- A reload that returns an error leaves the engine's rules and its path as they were.
  pub reload_keeps :
      (e : Engine) (cause : Error)
      → (reload read_rules e).0 ≡ some cause
      → (reload read_rules e).1 ≡ e
  unfolding reload
  reload_keeps e cause h = ground (arith, load_keeps e.file_path e cause)

  built-eq-ok :
      (path : String) (e e' : Engine)
      → built read_rules (load_from_file read_rules path e) ≡ ok e'
      → load_from_file read_rules path e ≡ (none, e')
  unfolding built load_from_file
  built-eq-ok path e e' h = ground arith

  -- An engine that `NewEngine` made from a non-empty path holds that path, and a reload of it
  -- while the file stays the same returns no error and leaves the engine as it is.
  pub reload-new_engine :
      (path : String) (e : Engine)
      → path ≢ ""
      → new_engine read_rules path ≡ ok e
      → (e.file_path ≡ path) × (reload read_rules e ≡ (none, e))
  unfolding new_engine reload
  reload-new_engine path e named made =
      let other : (path == "") ≡ false = ground (arith, eq_iff path "") in
      let start : Engine = record { rules = []; file_path = path } in
      let loaded = built-eq-ok path start e (rw (other, new_engine) at made) in
      let (same_path, again) = load_again path start e loaded in
      (same_path, simp (same_path, other) again)
