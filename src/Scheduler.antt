-- ===== src/Scheduler.antt =====
-- internal/scheduler/scheduler.go, over any runtimes and any store.
-- A Go map is an association list in the order of one visit. float64 is the parameter `Floats`. The
-- counter `rrIndex` is a number modulo 2 ^ 64.
pub mod Select
pub mod LowestLoad
pub mod Dispatch
use hermes_manager.Prelude.{
  ℕ, zero, suc, ◌+◌, ◌-◌, ◌*◌, ◌%◌, ◌^◌, String, Bool, true, false, Option, none, some, List, [],
  ◌∷◌, Error, errorf, wrapf, wrap, plain, quoted, Result, ok, err, Exec, lookup, pure, raise,
  on_error, attempt, ◌>>=◌, ◌>>◌, ◌==◌, ltb, eqb, if◌then◌else◌, length, get_elem?,
}
use hermes_manager.Storage.{
  Task, Skill, running, Store, ℤ, pos, negsuc, is_positive, pos_part, neg_part,
}
use hermes_manager.Runtime.{
  Runtime, Handle, err_runtime_not_found, err_runtime_unavailable, about_name, with_detail,
}

pub record Scheduler (W : Type 0) : Type 0 where
  pub runtimes : List (String × Runtime W)
  pub store : Store W
  pub rr_names : List String
  pub rr_index : ℕ

-- float64, with what the scheduler uses of it.
pub record Floats : Type 1 where
  pub Float : Type 0
  -- `float64(active) / float64(max)`, for a positive max
  pub quotient : ℤ → ℕ → Float
  -- `<`
  pub less : Float → Float → Bool
  -- `2.0`
  pub two : Float

abbrev pub about_dispatch : Task → Error → Error
about_dispatch task e =
    wrapf (plain "scheduler: dispatch on " ∷ quoted task.runtime ∷ plain ": " ∷ []) e []

module _ {W : Type 0} where
  unfoldable pub names_of : List (String × Runtime W) → List String
  names_of [] = []
  names_of ((name, rt) ∷ rest) = name ∷ names_of rest

  unfoldable pub new_scheduler : List (String × Runtime W) → Store W → Scheduler W
  new_scheduler runtimes store = record {
    runtimes = runtimes;
    store = store;
    rr_names = names_of runtimes;
    rr_index = 0;
  }

  -- `Dispatch` on the runtime that the task names.
  unfoldable pub dispatch_on : Store W → Runtime W → Task → Skill → Exec W Handle
  dispatch_on store rt task skill = do
    handle ← on_error (about_dispatch task) (rt.dispatch task skill)
    on_error (wrap "scheduler: update task state: ") (store.update_task_state task.id running)
    pure handle

  unfoldable pub dispatch : Scheduler W → Task → Skill → Exec W Handle
  dispatch s task skill = elim (lookup task.runtime s.runtimes) [
    | none ↦ raise (about_name err_runtime_not_found task.runtime)
    | some rt ↦ dispatch_on s.store rt task skill
  ]

  -- `s.runtimes[name]`, with the error of the default case where the key is missing.
  unfoldable pub select_named : Scheduler W → String → Result (Runtime W)
  select_named s name = elim (lookup name s.runtimes) [
    | none ↦ err (about_name err_runtime_not_found name)
    | some rt ↦ ok rt
  ]

  abbrev pub present : Result (Runtime W) → Result (Option (Runtime W))
  present (ok rt) = ok (some rt)
  present (err e) = err e

  -- `none` inside the result is the nil that Go's map gives for a missing key.
  unfoldable pub runtime_at : Scheduler W → ℕ → Option (Runtime W)
  runtime_at s i = elim (get_elem? s.rr_names i) [
    | none ↦ none
    | some name ↦ lookup name s.runtimes
  ]

  -- `rrIndex.Add(1) - 1`, both modulo 2 ^ 64, is the old counter.
  unfoldable pub select_round_robin : Scheduler W → Result (Option (Runtime W)) × Scheduler W
  select_round_robin s =
      let n = length s.rr_names in
      let added = (s.rr_index + 1) % 2 ^ 64 in
      let index = (added + 2 ^ 64 - 1) % 2 ^ 64 in
      if eqb n 0
      then (err (with_detail err_runtime_not_found "no runtimes registered"), s)
      else (ok (runtime_at s (index % n)), record s { rr_index = added })

-- `bestRT` and `bestRatio`
abbrev pub Best : Floats → Type 0 → Type 0
Best fl W = Option (Runtime W) × fl.Float

module _ (fl : Floats) {W : Type 0} where
  -- One round of the loop of `selectLowestLoad`, on what the runtime's `Status` returned.
  unfoldable pub better : Runtime W → Result (ℤ × ℤ) → Best fl W → Best fl W
  better rt (err e) best = best
  better rt (ok (active, negsuc n)) best = best
  better rt (ok (active, pos m)) best =
      let ratio = fl.quotient active m in
      if eqb m 0 then best else if fl.less ratio best.1 then (some rt, ratio) else best

  unfoldable pub lowest_load_from : List (String × Runtime W) → Best fl W → Exec W (Best fl W)
  lowest_load_from [] best w = (ok best, w)
  lowest_load_from ((name, rt) ∷ rest) best w =
      let (reported, w') = rt.status w in lowest_load_from rest (better rt reported best) w'

  unfoldable pub chosen : Best fl W → Exec W (Runtime W)
  chosen (none, ratio) = raise (with_detail err_runtime_unavailable "no runtimes available")
  chosen (some rt, ratio) = pure rt

  -- `bestRatio := 2.0`
  unfoldable pub select_lowest_load : Scheduler W → Exec W (Runtime W)
  select_lowest_load s =
      if eqb (length s.runtimes) 0
      then raise (with_detail err_runtime_not_found "no runtimes registered")
      else (do best ← lowest_load_from s.runtimes (none, fl.two); chosen best)

  -- The runtime, or the nil of a missing key, with the scheduler and the state after the call.
  unfoldable pub select_runtime :
      String → Scheduler W → W → Result (Option (Runtime W)) × Scheduler W × W
  select_runtime policy s w =
      if policy == "round-robin"
      then (let (picked, s') = select_round_robin s in (picked, s', w))
      else if policy == "lowest-load"
      then (let (picked, w') = select_lowest_load s w in (present picked, s, w'))
      else (present (select_named s policy), s, w)
