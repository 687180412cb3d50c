-- ===== src/Gateway/Slack/Bot/Counts.antt =====
-- The numbers that the status command reports.
use Prim.Native.String
use hermes_manager.Prelude.{
  ℕ, suc, ◌+◌, String, ◌≡◌, refl, ◌∙◌, ap, true, List, [], ◌∷◌, All, Result, ok, lookup, insert,
  lookup-insert, length, ◌==◌, if◌then◌else◌, Bool-cases, inl, inr, eq_iff, arith,
}
use hermes_manager.Storage.{
  Task, TaskState, pending, running, completed, failed, timeout, other, task_state_text,
}
use hermes_manager.World.{World}
use hermes_manager.Postgres.{is_known_state}
use hermes_manager.Gateway.Slack.Bot.{
  Bot, BotLibrary, number, count_states, state_lines, status_text, in_channel, status_filter,
  handle_status, answer_status,
}

-- How many tasks are in the state of a text.
unfoldable pub count_named : String → List Task → ℕ
count_named name [] = 0
count_named name (t ∷ ts) =
    let rest = count_named name ts in if task_state_text t.state == name then suc rest else rest

abbrev pub count_in : TaskState → List Task → ℕ
count_in state = count_named (task_state_text state)

count_states-lookup :
    (name : String) (ts : List Task) (counts : List (String × ℕ))
    → number (lookup name (count_states ts counts))
      ≡ number (lookup name counts) + count_named name ts
unfolding count_states count_named
count_states-lookup name [] counts = omega arith
count_states-lookup name (t ∷ ts) counts =
    let state = task_state_text t.state in
    let counted =
      count_states-lookup name ts (insert state (number (lookup state counts) + 1) counts) in
    let row = lookup-insert state name (number (lookup state counts) + 1) counts in
    elim (Bool-cases (state == name)) [
      | inl same ↦ ground (arith, eq_iff state name)
      | inr differ ↦ ground arith
    ]

count_states-number :
    (state : TaskState) (ts : List Task)
    → number (lookup (task_state_text state) (count_states ts [])) ≡ count_in state ts
unfolding lookup
count_states-number state ts = ground (arith, count_states-lookup (task_state_text state) ts [])

one_state :
    (state : TaskState) (p r c f t n : ℕ)
    → is_known_state state ≡ true
    → p + r + c + f + t ≡ n
    → (if task_state_text state == "pending" then suc p else p)
        + (if task_state_text state == "running" then suc r else r)
        + (if task_state_text state == "completed" then suc c else c)
        + (if task_state_text state == "failed" then suc f else f)
        + (if task_state_text state == "timeout" then suc t else t)
      ≡ suc n
unfolding is_known_state
one_state pending p r c f t n known h = omega arith
one_state running p r c f t n known h = omega arith
one_state completed p r c f t n known h = omega arith
one_state failed p r c f t n known h = omega arith
one_state timeout p r c f t n known h = omega arith
one_state (other s) p r c f t n known h = cc

counts-sum :
    (ts : List Task)
    → All (λ t. is_known_state t.state ≡ true) ts
    → count_in pending ts
        + count_in running ts
        + count_in completed ts
        + count_in failed ts
        + count_in timeout ts
      ≡ length ts
unfolding count_named
counts-sum [] known = refl
counts-sum (t ∷ ts) (known, rest) =
    one_state t.state _ _ _ _ _ (length ts) known (counts-sum ts rest)

-- The answer of the status command, with the six numbers in it.
module _ (lib : BotLibrary) where
  abbrev pub line : String → ℕ → String → String
  line name n rest =
      String.◌++◌ "• "
        (String.◌++◌ name (String.◌++◌ ": " (String.◌++◌ (lib.itoa n) (String.◌++◌ "\n" rest))))

  abbrev pub report : ℕ → ℕ → ℕ → ℕ → ℕ → ℕ → String
  report p r c f t total = String.◌++◌ "*Task Status*\n" (
      line "pending" p (
        line "running" r (
          line "completed" c
            (line "failed" f (line "timeout" t (String.◌++◌ "Total: " (lib.itoa total)))))))

status_text-eq :
    (lib : BotLibrary) (ts : List Task)
    → status_text lib ts
      ≡ report lib
          (count_in pending ts)
          (count_in running ts)
          (count_in completed ts)
          (count_in failed ts)
          (count_in timeout ts)
          (length ts)
unfolding state_lines
status_text-eq lib ts = rw⁻¹ (count_states-number pending ts) (
    rw⁻¹ (count_states-number running ts) (
      rw⁻¹ (count_states-number completed ts)
        (rw⁻¹ (count_states-number failed ts) (rw⁻¹ (count_states-number timeout ts) refl))))

module _ (lib : BotLibrary) (b : Bot) where
  -- Where the store lists the tasks, all in one of the five states, the status command reports for each
  -- state the number of the listed tasks that are in it, and their number as the total, which is the
  -- sum of the five.
  pub handle_status-Counts :
      (ts : List Task) (w w' : World)
      → b.store.list_tasks (status_filter lib) w ≡ (ok ts, w')
      → All (λ t. is_known_state t.state ≡ true) ts
      → (handle_status lib b w ≡ (
        in_channel (
            report lib
              (count_in pending ts)
              (count_in running ts)
              (count_in completed ts)
              (count_in failed ts)
              (count_in timeout ts)
              (length ts)),
        w',
      ))
        × (count_in pending ts
              + count_in running ts
              + count_in completed ts
              + count_in failed ts
              + count_in timeout ts
            ≡ length ts)
  unfolding handle_status
  handle_status-Counts ts w w' listed known = (
    ap (λ (q : Result (List Task) × World). (answer_status lib q.0, q.1)) listed
        ∙ ap (λ text. (in_channel text, w')) (status_text-eq lib ts),
    counts-sum ts known,
  )
