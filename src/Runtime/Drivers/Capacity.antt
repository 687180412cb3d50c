-- ===== src/Runtime/Drivers/Capacity.antt =====
-- What the local driver does to the world, and the bound on the agents that run at once, where calls
-- of `Dispatch` overlap.
use hermes_manager.Prelude.{
  ℕ, zero, suc, ◌+◌, ◌≤◌, ◌<◌, String, ◌≡◌, refl, ◌∙◌, sym, ap, subst, ◌⊎◌, inl, inr, some, List,
  [], ◌∷◌, length, get_elem?, Result, ok, err, Error, wrap, lift, on_error, on_error-post, >>=-post,
  >>=-through, leb, Bool-cases, Option-cases, arith,
}
use hermes_manager.Storage.{Task, Skill}
use hermes_manager.World.{World, Host, Process, rand_read}
use hermes_manager.Scheduler.Dispatch.{KeepsTables}
use hermes_manager.Api.Server.{generate_token}
use hermes_manager.Runtime.Drivers.Local.{
  Machine, max_concurrency, task_json, check_capacity, dir_made, make_task_dir, process_of,
  process_started, start_process, dispatch_from, dispatch, local_runtime, without, released,
  process_exits,
}

-- The database, its network and the clock are the same.
record IsOutside (w v : World) : Type 0 where
  db : v.db ≡ w.db
  net : v.net ≡ w.net
  now : v.now ≡ w.now

-- Nothing has been started.
record IsWaiting (w v : World) : Type 0 where
  outside : IsOutside w v
  active : v.host.active ≡ w.host.active
  running : v.host.running ≡ w.host.running

-- Nothing has been started, or one process.
record IsStep (w v : World) : Type 0 where
  outside : IsOutside w v
  count :
      ((v.host.active ≡ w.host.active) × (v.host.running ≡ w.host.running))
      ⊎ ((v.host.active ≡ suc w.host.active)
          × ((p : Process) × (v.host.running ≡ p ∷ w.host.running)))

waited : (w v : World) → IsWaiting w v → IsStep w v
waited w v h = record { outside = h.outside; count = inl (h.active, h.running) }

IsWaiting-self : (w : World) → IsWaiting w w
IsWaiting-self w = record {
  outside = record { db = refl; net = refl; now = refl };
  active = refl;
  running = refl;
}

module _ (m : Machine) where
  dir_made-IsWaiting :
      (w v : World) (r : Result String) → IsWaiting w v → IsWaiting w (dir_made m v r).1
  dir_made-IsWaiting w v (err e) h = h
  dir_made-IsWaiting w v (ok dir) h = record {
    outside = record { db = h.outside.db; net = h.outside.net; now = h.outside.now };
    active = h.active;
    running = h.running;
  }

  make_task_dir-IsWaiting :
      (id : String) (w v : World) → IsWaiting w v → IsWaiting w (make_task_dir m id v).1
  unfolding make_task_dir
  make_task_dir-IsWaiting id w v h = dir_made-IsWaiting w v _ h

  generate_token-IsWaiting :
      (about : Error → Error) (w v : World) → IsWaiting w v → IsWaiting w (generate_token about v).1
  unfolding generate_token rand_read
  generate_token-IsWaiting about w v h =
      let token = (generate_token about v).1 in
      record {
        outside = record {
          db = (let e : token.db ≡ v.db = ground arith in e ∙ h.outside.db);
          net = (let e : token.net ≡ v.net = ground arith in e ∙ h.outside.net);
          now = (let e : token.now ≡ v.now = ground arith in e ∙ h.outside.now);
        };
        active =
            (let e : token.host ≡ v.host = ground arith in
              ap (λ (k : Host). k.active) e ∙ h.active);
        running =
            (let e : token.host ≡ v.host = ground arith in
              ap (λ (k : Host). k.running) e ∙ h.running);
      }

  process_started-IsStep :
      (task : Task) (skill : Skill) (dir token : String) (w v : World) (r : Result ℕ)
      → IsWaiting w v
      → IsStep w (process_started m task skill dir token v r).1
  process_started-IsStep task skill dir token w v (err e) h = waited w v h
  process_started-IsStep task skill dir token w v (ok pid) h = record {
    outside = record { db = h.outside.db; net = h.outside.net; now = h.outside.now };
    count = inr (
      ap (λ n. n + 1) h.active ∙ omega arith,
      (
        process_of m task skill dir token pid,
        ap (λ ps. process_of m task skill dir token pid ∷ ps) h.running,
      ),
    );
  }

  check_capacity-same : (w : World) → (check_capacity m w).1 ≡ w
  unfolding check_capacity
  check_capacity-same w = ground arith

  check_capacity-eq-ok :
      (w v : World) → check_capacity m w ≡ (ok tt, v) → (v ≡ w) × (w.host.active < 10)
  unfolding check_capacity
  check_capacity-eq-ok w v h = elim (Bool-cases (leb max_concurrency w.host.active)) [
    | inl full ↦ cc (rw (full, check_capacity) at h)
    | inr free ↦ (cc (rw (free, check_capacity) at h), ground arith)
  ]

  from_start-IsStep :
      (task : Task) (skill : Skill) (w v : World)
      → v ≡ w
      → IsStep w (dispatch_from m task skill v).1
  unfolding dispatch_from start_process
  from_start-IsStep task skill w v same =
      let waiting : IsWaiting w v = subst (λ u. IsWaiting w u) (sym same) (IsWaiting-self w) in
      >>=-through (IsWaiting w) (IsStep w)
        (on_error (wrap "local: create temp dir: ") (make_task_dir m task.id)) _ v
        (on_error-post (IsWaiting w) (wrap "local: create temp dir: ") (make_task_dir m task.id) v
          (make_task_dir-IsWaiting task.id w v waiting))
        (waited w)
        (λ dir v₁ h₁.
          >>=-through (IsWaiting w) (IsStep w)
            (on_error (wrap "local: marshal task json: ") (lift (m.marshal (task_json task)))) _ v₁
            (on_error-post (IsWaiting w) (wrap "local: marshal task json: ")
              (lift (m.marshal (task_json task))) v₁ h₁)
            (waited w)
            (λ text v₂ h₂.
              >>=-through (IsWaiting w) (IsStep w)
                (on_error (wrap "local: write task.json: ") (lift (m.write_file dir text))) _ v₂
                (on_error-post (IsWaiting w) (wrap "local: write task.json: ")
                  (lift (m.write_file dir text)) v₂ h₂)
                (waited w)
                (λ _ v₃ h₃.
                  >>=-through (IsWaiting w) (IsStep w)
                    (generate_token (wrap "local: generate agent token: ")) _ v₃
                    (generate_token-IsWaiting (wrap "local: generate agent token: ") w v₃ h₃)
                    (waited w)
                    (λ token v₄ h₄.
                      on_error-post (IsStep w) (wrap "local: start process: ")
                        (start_process m task skill dir token) v₄
                        (process_started-IsStep task skill dir token w v₄ (m.start skill dir)
                          h₄)))))

  dispatch-IsStep : (task : Task) (skill : Skill) (w : World) → IsStep w (dispatch m task skill w).1
  unfolding dispatch
  dispatch-IsStep task skill w =
      >>=-post (IsStep w) (check_capacity m) _ w
        (waited w _ (subst (λ u. IsWaiting w u) (sym (check_capacity-same w)) (IsWaiting-self w)))
        (λ _ v checked h. from_start-IsStep task skill w v (check_capacity-eq-ok w v checked).0)

  -- A call of the local driver's `Dispatch`, however it ends, leaves the database, its network and the
  -- clock alone.
  pub local_runtime-KeepsTables : KeepsTables (local_runtime m)
  unfolding local_runtime
  local_runtime-KeepsTables = record {
    db = λ task skill w. (dispatch-IsStep task skill w).outside.db;
    net = λ task skill w. (dispatch-IsStep task skill w).outside.net;
    now = λ task skill w. (dispatch-IsStep task skill w).outside.now;
  }

-- The driver between the steps of its calls: a pending call has passed the test of the capacity, and
-- has not started its process.
pub record Calls : Type 0 where
  pub world : World
  pub pending : List (Task × Skill)

-- The steps of overlapping calls of `Dispatch`, of which at most `k` are pending: a call is refused or
-- passes the test, a pending call runs to its end, the process at a place exits, or something else
-- happens. (A call's start
-- of a process and its `Add(1)` are one step, as no other step reads the processes before the count.)
pub data Step (m : Machine) (k : ℕ) (s : Calls) : Calls → Type 0 where
  refused : (e : Error) → (check_capacity m s.world).0 ≡ err e → Step m k s s
  checked :
      (task : Task) (skill : Skill)
      → length s.pending < k
      → (check_capacity m s.world).0 ≡ ok tt
      → Step m k s (record { world = s.world; pending = (task, skill) ∷ s.pending })
  dispatched :
      (n : ℕ) (task : Task) (skill : Skill)
      → get_elem? s.pending n ≡ some (task, skill)
      → Step m k s
          (record { world = (dispatch_from m task skill s.world).1; pending = without n s.pending })
  exited : (n : ℕ) → Step m k s (record { world = process_exits n s.world; pending = s.pending })
  -- a step of another part of the program
  elsewhere :
      (w : World) → w.host ≡ s.world.host → Step m k s (record { world = w; pending = s.pending })

pub data Reach (m : Machine) (k : ℕ) (s : Calls) : Calls → Type 0 where
  start : Reach m k s s
  later : {t u : Calls} → Reach m k s t → Step m k t u → Reach m k s u

-- The count is that of the running processes, which with the pending calls are at most `9 + k`.
pub record IsCounted (k : ℕ) (s : Calls) : Type 0 where
  pub count : s.world.host.active ≡ length s.world.host.running
  pub bound : length s.world.host.running + length s.pending ≤ 9 + k

length-without :
    {A : Type 0} (n : ℕ) (xs : List A) (x : A)
    → get_elem? xs n ≡ some x
    → length xs ≡ suc (length (without n xs))
unfolding without
length-without n [] x h = cc
length-without zero (y ∷ xs) x h = refl
length-without (suc n) (y ∷ xs) x h = ap suc (length-without n xs x h)

-- A call that runs to its end is no longer pending, and has started at most one process.
dispatched-IsCounted :
    (k : ℕ) (s t : Calls)
    → length s.pending ≡ suc (length t.pending)
    → IsStep s.world t.world
    → IsCounted k s
    → IsCounted k t
dispatched-IsCounted k s t one step h =
    let count = h.count in
    let bound = h.bound in
    elim step.count [
      | inl (active, running) ↦
          let same = ap length running in record { count = omega arith; bound = omega arith }
      | inr (active, (p, running)) ↦
          let same = ap length running in record { count = omega arith; bound = omega arith }
    ]

exited-IsCounted :
    (k n : ℕ) (s : Calls)
    → IsCounted k s
    → IsCounted k (record { world = process_exits n s.world; pending = s.pending })
unfolding process_exits released
exited-IsCounted k n s h = elim (Option-cases (get_elem? s.world.host.running n)) [
  | inl gone ↦ rw (gone, process_exits) h
  | inr (p, there) ↦
      rw (there, process_exits)
        (let one = length-without n s.world.host.running p there in
          let count = h.count in
          let bound = h.bound in record { count = omega arith; bound = omega arith })
]

module _ (m : Machine) (k : ℕ) where
  check_capacity-free : (w : World) → (check_capacity m w).0 ≡ ok tt → w.host.active < 10
  unfolding check_capacity
  check_capacity-free w h = ground arith

  Step-IsCounted : (s t : Calls) → Step m k s t → IsCounted k s → IsCounted k t
  Step-IsCounted s _ (refused e full) h = h
  Step-IsCounted s _ (checked task skill few free) h =
      let count = h.count in
      let small = check_capacity-free s.world free in
      record { count = h.count; bound = omega arith }
  Step-IsCounted s t (dispatched n task skill there) h =
      dispatched-IsCounted k s _ (length-without n s.pending (task, skill) there)
        (from_start-IsStep m task skill s.world s.world refl) h
  Step-IsCounted s _ (exited n) h = exited-IsCounted k n s h
  Step-IsCounted s _ (elsewhere w same) h = record {
    count =
        ap (λ (o : Host). o.active) same ∙ h.count ∙ ap (λ (o : Host). length o.running) (sym same);
    bound = subst (λ (o : Host). length o.running + length s.pending ≤ 9 + k) (sym same) h.bound;
  }

  -- However calls of `Dispatch` and the ends of processes overlap, with at most k calls between the test
  -- of the capacity and the count, and on any answers of the operating system, the driver's count is
  -- the number of the processes that run, and these and the pending calls are at most 9 + k, if that
  -- holds at the start. (So ten is the bound only where one call is pending at a time.)
  pub Reach-IsCounted : (s t : Calls) → Reach m k s t → IsCounted k s → IsCounted k t
  Reach-IsCounted s _ start h = h
  Reach-IsCounted s u (later before step) h = Step-IsCounted _ u step (Reach-IsCounted s _ before h)
