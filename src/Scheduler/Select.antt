-- ===== src/Scheduler/Select.antt =====
-- `SelectRuntime` with the policy "round-robin", on a scheduler as `NewScheduler` makes it.
use hermes_manager.Prelude.{
  ℕ, zero, suc, ◌+◌, ◌-◌, ◌%◌, ◌^◌, ◌<◌, String, ◌≡◌, refl, ◌∙◌, sym, ap, subst, ◌≢◌, false, some,
  List, [], ◌∷◌, arith, ok, lookup, ◌==◌, eqb, length, get_elem?, Bool-cases, inl, inr, eq_refl,
}
use native.Mathlib.Nat.{mod-lt}
use hermes_manager.Runtime.{Runtime}
use hermes_manager.Scheduler.{Scheduler, names_of, runtime_at, select_round_robin}

counter_wraps : (n : ℕ) → n < 2 ^ 64 → ((n + 1) % 2 ^ 64 + 2 ^ 64 - 1) % 2 ^ 64 ≡ n
counter_wraps n lt = omega arith

module _ {W : Type 0} where
  -- Each of the names is a key.
  names_of-lookup :
      (runtimes : List (String × Runtime W)) (i : ℕ)
      → i < length (names_of runtimes)
      → (name : String) × (rt : Runtime W) × (get_elem? (names_of runtimes) i ≡ some name)
        × (lookup name runtimes ≡ some rt)
  unfolding names_of lookup
  names_of-lookup [] i lt = absurd (omega arith)
  names_of-lookup ((name, rt) ∷ rest) zero lt = (name, rt, refl, rw (eq_refl name) refl)
  names_of-lookup ((key, first) ∷ rest) (suc i) lt =
      let (name, rt, at, found) = names_of-lookup rest i (omega arith) in
      elim (Bool-cases (key == name)) [
        | inl same ↦ (name, first, at, rw same refl)
        | inr other ↦ (name, rt, at, rw other found)
      ]

  length_positive : (runtimes : List (String × Runtime W)) → runtimes ≢ [] → 0 < length runtimes
  length_positive [] ne = absurd (ne refl)
  length_positive (r ∷ rest) ne = omega arith

  length-names_of :
      (runtimes : List (String × Runtime W)) → length (names_of runtimes) ≡ length runtimes
  unfolding names_of
  length-names_of [] = refl
  length-names_of (r ∷ rest) = ap suc (length-names_of rest)

  nonempty :
      (s : Scheduler W) → s.rr_names ≡ names_of s.runtimes → s.runtimes ≢ [] → 0 < length s.rr_names
  nonempty s names some_there =
      let same : length s.rr_names ≡ length s.runtimes =
        ap length names ∙ length-names_of s.runtimes in
      subst (λ n. 0 < n) (sym same) (length_positive s.runtimes some_there)

  selects :
      (s : Scheduler W) (name : String) (rt : Runtime W)
      → s.rr_index < 2 ^ 64
      → 0 < length s.rr_names
      → get_elem? s.rr_names (s.rr_index % length s.rr_names) ≡ some name
      → lookup name s.runtimes ≡ some rt
      → select_round_robin s ≡ (ok (some rt), record s { rr_index = (s.rr_index + 1) % 2 ^ 64 })
  unfolding select_round_robin runtime_at
  selects s name rt small many at found =
      let some_name : eqb (length s.rr_names) 0 ≡ false = ground arith in
      let found' : runtime_at s (s.rr_index % length s.rr_names) ≡ some rt =
        rw (at, runtime_at) found in
      rw (some_name, select_round_robin)
        (rw (counter_wraps s.rr_index small)
          (ap (λ o. (ok o, record s { rr_index = (s.rr_index + 1) % 2 ^ 64 })) found'))

  -- With the names that `NewScheduler` collects and a counter below 2 ^ 64, round-robin fails
  -- only where no runtime is registered. Otherwise it returns the runtime whose name stands at the
  -- counter modulo the number of runtimes, which is never nil, and moves the counter on by one.
  pub select_round_robin_lem :
      (s : Scheduler W)
      → s.rr_names ≡ names_of s.runtimes
      → s.rr_index < 2 ^ 64
      → s.runtimes ≢ []
      → (name : String) × (rt : Runtime W) × (get_elem? s.rr_names (s.rr_index % length s.rr_names)
          ≡ some name)
        × (lookup name s.runtimes ≡ some rt)
        × (select_round_robin s ≡ (ok (some rt), record s { rr_index = (s.rr_index + 1) % 2 ^ 64 }))
  unfolding select_round_robin runtime_at
  select_round_robin_lem s names small some_there =
      let many : 0 < length s.rr_names = nonempty s names some_there in
      let (name, rt, at, found) = names_of-lookup s.runtimes (s.rr_index % length s.rr_names) (
        subst (λ (ns : List String). s.rr_index % length s.rr_names < length ns) names
          (mod-lt s.rr_index many)) in
      let at' : get_elem? s.rr_names (s.rr_index % length s.rr_names) ≡ some name =
        ap (λ ns. get_elem? ns (s.rr_index % length s.rr_names)) names ∙ at in
      (name, rt, at', found, selects s name rt small many at' found)
