-- ===== src/Postgres/Query.antt =====
-- The `SELECT ... ORDER BY ... LIMIT ... OFFSET` queries of the store.
use text.Mathlib.Text.{is_le}
use Prim.Native.String.{compare}
use hermes_manager.Prelude.{
  ℕ, zero, suc, String, Bool, true, none, some, List, [], ◌∷◌, library, Result, ok, err, take, drop,
  leb, filter_by, ◌==◌, ◌&&◌, if◌then◌else◌,
}
use hermes_manager.Storage.{
  Skill, task_state_text, Task, TaskFilter, event_type_text, Event, EventFilter, ℤ, pos, negsuc,
}

module _ {A : Type 0} (first : A → A → Bool) where
  unfoldable pub place : A → List A → List A
  place a [] = a ∷ []
  place a (b ∷ bs) = if first a b then a ∷ b ∷ bs else b ∷ place a bs

  unfoldable pub order_by : List A → List A
  order_by [] = []
  order_by (a ∷ rest) = place a (order_by rest)

module _ {A : Type 0} where
  unfoldable pub values : List (String × A) → List A
  values [] = []
  values ((k, v) ∷ m) = v ∷ values m

  unfoldable pub place_at : ℕ → A → List A → List A
  place_at zero a xs = a ∷ xs
  place_at (suc n) a [] = a ∷ []
  place_at (suc n) a (x ∷ xs) = x ∷ place_at n a xs

  -- The rows in the order of a scan: each is put at its place among the later ones.
  unfoldable pub scanned : List ℕ → List A → List A
  scanned [] rows = rows
  scanned (n ∷ places) [] = []
  scanned (n ∷ places) (row ∷ rows) = place_at n row (scanned places rows)

  -- `LIMIT limit OFFSET offset`; the server refuses a negative offset.
  unfoldable pub page : ℕ → ℤ → List A → Result (List A)
  page limit (pos offset) rows = ok (take limit (drop offset rows))
  page limit (negsuc n) rows = err (library "OFFSET must not be negative")

-- `limit <= 0` stands for the default.
unfoldable pub effective_limit : ℤ → ℕ → ℕ
effective_limit (pos n) default = if leb n 0 then default else n
effective_limit (negsuc n) default = default

unfoldable pub name_first : Skill → Skill → Bool
name_first a b = is_le (compare a.name b.name)

unfoldable pub select_skills : List (String × Skill) → List Skill
select_skills rows = order_by name_first (values rows)

unfoldable pub newer_task : Task → Task → Bool
newer_task a b = leb b.created_at a.created_at

unfoldable pub task_passes : TaskFilter → Task → Bool
task_passes filter t = elim filter.state [
  | none ↦ true
  | some s ↦ task_state_text t.state == task_state_text s
]

-- The server refuses a filter's text that it cannot take.
unfoldable pub task_admitted : (String → Bool) → TaskFilter → Bool
task_admitted admits filter = elim filter.state [
  | none ↦ true
  | some s ↦ admits (task_state_text s)
]

unfoldable pub select_tasks : TaskFilter → List (String × Task) → Result (List Task)
select_tasks filter rows =
    page (effective_limit filter.limit 50) filter.offset
      (order_by newer_task (filter_by (task_passes filter) (values rows)))

unfoldable pub newer_event : Event → Event → Bool
newer_event a b = leb b.created_at a.created_at

unfoldable pub event_passes : EventFilter → Event → Bool
event_passes filter e =
    (elim filter.task_id [ none ↦ true | some id ↦ e.task_id == id ])
    && (elim filter.event_type [
      | none ↦ true
      | some t ↦ event_type_text e.type == event_type_text t
    ])
    && (elim filter.since [ none ↦ true | some t ↦ leb t e.created_at ])

unfoldable pub event_admitted : (String → Bool) → EventFilter → Bool
event_admitted admits filter =
    (elim filter.task_id [ none ↦ true | some id ↦ admits id ])
    && (elim filter.event_type [ none ↦ true | some t ↦ admits (event_type_text t) ])

unfoldable pub select_events : EventFilter → List (String × Event) → Result (List Event)
select_events filter rows =
    page (effective_limit filter.limit 500) filter.offset
      (order_by newer_event (filter_by (event_passes filter) (values rows)))
