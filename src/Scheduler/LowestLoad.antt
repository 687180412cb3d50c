-- ===== src/Scheduler/LowestLoad.antt =====
-- `SelectRuntime` with the policy "lowest-load".
use hermes_manager.Prelude.{
  ℕ, ◌<◌, String, arith, ◌≡◌, ◌≢◌, refl, ◌∙◌, ap, subst, ◌⊎◌, inl, inr, true, false, none, some,
  List, [], ◌∷◌, Result, ok, err, All, length, eqb, Bool-cases,
}
use hermes_manager.Storage.{ℤ, pos, negsuc}
use hermes_manager.Runtime.{Runtime, err_runtime_unavailable, with_detail}
use hermes_manager.Scheduler.{
  Scheduler, Floats, Best, better, lowest_load_from, chosen, select_lowest_load,
}

-- What `<` of float64 promises, NaN included: nothing is below itself, and what is not below a number
-- is not below a lower one.
pub record IsOrder (fl : Floats) : Type 0 where
  pub irrefl : (x : fl.Float) → fl.less x x ≡ false
  pub below : (x b c : fl.Float) → fl.less x b ≡ false → fl.less c b ≡ true → fl.less x c ≡ false

-- A runtime and what its `Status` returned.
abbrev pub Report : Type 0 → Type 0
Report W = Runtime W × Result (ℤ × ℤ)

module _ {W : Type 0} where
  -- The reports that the loop reads, each from the state that the call before has left.
  unfoldable pub reports : List (String × Runtime W) → W → List (Report W)
  reports [] w = []
  reports ((name, rt) ∷ rest) w = (rt, (rt.status w).0) ∷ reports rest (rt.status w).1

  abbrev pub OneOf : Report W → List (Report W) → Type 0
  OneOf r [] = ⊥
  OneOf r (x ∷ xs) = (x ≡ r) ⊎ OneOf r xs

  nonempty :
      (runtimes : List (String × Runtime W)) → runtimes ≢ [] → eqb (length runtimes) 0 ≡ false
  nonempty [] ne = absurd (ne refl)
  nonempty (r ∷ rest) ne = ground arith

abbrev IsNotAbove : (fl : Floats) → fl.Float → fl.Float → Type 0
IsNotAbove fl y b = (x : fl.Float) → fl.less x b ≡ false → fl.less x y ≡ false

module _ (fl : Floats) {W : Type 0} where
  -- The report has no ratio, or one that is not below the given one.
  abbrev pub NoLower : fl.Float → Report W → Type 0
  NoLower x (rt, err e) = Unit
  NoLower x (rt, ok (a, negsuc n)) = Unit
  NoLower x (rt, ok (a, pos m)) = 0 < m → fl.less (fl.quotient a m) x ≡ false

  -- What "lowest-load" answers: an error, with no ratio below 2 reported, or a runtime that reported
  -- a positive capacity and a ratio that none of the other reports is below.
  pub Answers : List (Report W) → Result (Runtime W) → Type 0
  Answers l (err e) =
      (e ≡ with_detail err_runtime_unavailable "no runtimes available") × All (NoLower fl.two) l
  Answers l (ok rt) =
      (a : ℤ) × (m : ℕ) × (0 < m) × OneOf (rt, ok (a, pos m)) l × All (NoLower (fl.quotient a m)) l

module _ (fl : Floats) (order : IsOrder fl) {W : Type 0} where
  -- The number is the ratio of a report of the runtime.
  abbrev Reported : Runtime W → Result (ℤ × ℤ) → fl.Float → Type 0
  Reported rt report x =
      (a : ℤ) × (m : ℕ) × (0 < m) × (report ≡ ok (a, pos m)) × (x ≡ fl.quotient a m)

  -- One round: the best after it is no higher, and is the old one or the report's.
  record IsRound (rt : Runtime W) (report : Result (ℤ × ℤ)) (b b' : Best fl W) : Type 0 where
    here : NoLower fl b'.1 (rt, report)
    down : IsNotAbove fl b'.1 b.1
    from : (b' ≡ b) ⊎ ((b'.0 ≡ some rt) × Reported rt report b'.1)

  better-IsRound :
      (rt : Runtime W) (report : Result (ℤ × ℤ)) (b : Best fl W)
      → IsRound rt report b (better fl rt report b)
  unfolding better
  better-IsRound rt (err e) b = record { here = tt; down = λ x k. k; from = inl refl }
  better-IsRound rt (ok (a, negsuc n)) b = record { here = tt; down = λ x k. k; from = inl refl }
  better-IsRound rt (ok (a, pos m)) b = elim (Bool-cases (eqb m 0)) [
    | inl zero_max ↦
        rw (zero_max, better)
          (record { here = λ k. absurd (ground arith); down = λ x k. k; from = inl refl })
    | inr some_max ↦ elim (Bool-cases (fl.less (fl.quotient a m) b.1)) [
      | inr above ↦
          rw (some_max, better)
            (rw above (record { here = λ k. above; down = λ x k. k; from = inl refl }))
      | inl lower ↦
          rw (some_max, better)
            (rw lower (record {
              here = λ k. order.irrefl (fl.quotient a m);
              down = λ x k. order.below x b.1 (fl.quotient a m) k lower;
              from = inr (refl, (a, m, ground arith, refl, refl));
            }))
    ]
  ]

  -- The best after a loop is the one before it, or that of a report.
  abbrev Origin : List (Report W) → Best fl W → Best fl W → Type 0
  Origin l b b' =
      (b' ≡ b)
      ⊎ ((rt : Runtime W) × (a : ℤ) × (m : ℕ) × (0 < m)
          × (b' ≡ (some rt, fl.quotient a m))
          × OneOf (rt, ok (a, pos m)) l)

  record IsLoop (l : List (Report W)) (b b' : Best fl W) : Type 0 where
    all : All (NoLower fl b'.1) l
    down : IsNotAbove fl b'.1 b.1
    from : Origin l b b'

  NoLower-down :
      (x y : fl.Float) (r : Report W) → IsNotAbove fl y x → NoLower fl x r → NoLower fl y r
  NoLower-down x y (rt, err e) h k = tt
  NoLower-down x y (rt, ok (a, negsuc n)) h k = tt
  NoLower-down x y (rt, ok (a, pos m)) h k = λ p. h (fl.quotient a m) (k p)

  joined :
      (rt : Runtime W) (report : Result (ℤ × ℤ)) (l : List (Report W)) (b mid b' : Best fl W)
      → IsRound rt report b mid
      → IsLoop l mid b'
      → IsLoop ((rt, report) ∷ l) b b'
  joined rt report l b mid b' round loop = record {
    all = (NoLower-down mid.1 b'.1 (rt, report) loop.down round.here, loop.all);
    down = λ x k. loop.down x (round.down x k);
    from = elim loop.from [
      | inr (r, a, m, some_max, is, there) ↦ inr (r, a, m, some_max, is, inr there)
      | inl same ↦ elim round.from [
        | inl kept ↦ inl (same ∙ kept)
        | inr (is, (a, m, some_max, reported, ratio)) ↦
            inr (rt, a, m, some_max, cc, inl (ap (λ r. (rt, r)) reported))
      ]
    ];
  }

  lowest_load_from-IsLoop :
      (runtimes : List (String × Runtime W)) (b : Best fl W) (w : W)
      → (b' : Best fl W) × (w' : W) × (lowest_load_from fl runtimes b w ≡ (ok b', w'))
        × IsLoop (reports runtimes w) b b'
  unfolding lowest_load_from reports
  lowest_load_from-IsLoop [] b w =
      (b, w, refl, record { all = tt; down = λ x k. k; from = inl refl })
  lowest_load_from-IsLoop ((name, rt) ∷ rest) b w =
      let report = (rt.status w).0 in
      let (b', w', ran, loop) =
        lowest_load_from-IsLoop rest (better fl rt report b) (rt.status w).1 in
      (
        b',
        w',
        ran,
        joined rt report (reports rest (rt.status w).1) b (better fl rt report b) b'
            (better-IsRound rt report b) loop,
      )

  chosen-Answers :
      (l : List (Report W)) (b : Best fl W) (w : W)
      → IsLoop l (none, fl.two) b
      → Answers fl l (chosen fl b w).0
  unfolding chosen Answers
  chosen-Answers l (none, x) w loop = elim loop.from [
    | inl same ↦ (refl, subst (λ (b : Best fl W). All (NoLower fl b.1) l) same loop.all)
    | inr (rt, a, m, some_max, is, there) ↦ cc
  ]
  chosen-Answers l (some rt, x) w loop = elim loop.from [
    | inl same ↦ cc
    | inr (r, a, m, some_max, is, there) ↦ (
      a,
      m,
      some_max,
      subst (λ (q : Runtime W). OneOf (q, ok (a, pos m)) l) (cc) there,
      subst (λ (y : fl.Float). All (NoLower fl y) l) (ap (λ (b : Best fl W). b.1) is) loop.all,
    )
  ]

  -- With at least one runtime registered, "lowest-load" fails only where no runtime reported a
  -- positive capacity with a load whose float64 quotient is below 2. Otherwise it returns a runtime
  -- that reported a load and a positive capacity, and no reported quotient is below theirs. (Over an
  -- order `<` of the quotients.)
  pub select_lowest_load-Answers :
      (s : Scheduler W) (w : W)
      → s.runtimes ≢ []
      → Answers fl (reports s.runtimes w) (select_lowest_load fl s w).0
  unfolding select_lowest_load
  select_lowest_load-Answers s w some_there =
      let many : eqb (length s.runtimes) 0 ≡ false = nonempty s.runtimes some_there in
      let (b, v, ran, loop) = lowest_load_from-IsLoop s.runtimes (none, fl.two) w in
      rw (many, select_lowest_load) (rw (ran) (chosen-Answers (reports s.runtimes w) b v loop))
