-- ===== src/Api/Events/Steps.antt =====
-- What the parts of the handler of POST /v1/events do to the tables, whatever the network does.
use hermes_manager.Prelude.{
  ℕ, String, ◌≡◌, refl, ◌∙◌, sym, ap, ◌⊎◌, inl, inr, true, Option, none, some, List, arith, adjust,
  on_error-post, subst, >>=-through, error, wrap,
}
use hermes_manager.Storage.{moved, Task, TaskState, running, Event, event_type_of}
use hermes_manager.World.{World, Db, AgentToken, rand_read}
use hermes_manager.Policy.{Rule}
use hermes_manager.Scheduler.{Scheduler}
use hermes_manager.Postgres
use hermes_manager.Postgres.{accepts}
use hermes_manager.Postgres.Calls.{
  update_task_state-tasks, update_task_state-tokens, append_event-tasks, append_event-tokens,
  append_event-now, revoke_agent_token-tasks, revoke_agent_token-tokens,
}
use hermes_manager.Api.Server.{Library, Server, new_server, generate_id}
use hermes_manager.Api.Events.{
  Effect, finishes, starts, nothing, effect_of, apply_effect, set_task_state, store_event, event_id,
  new_event, record_event, CreateEventRequest,
}

abbrev pub target : Effect → Option TaskState
target (finishes state) = some state
target starts = some running
target nothing = none

-- The tasks are as before, or the one task has gone to the state that the event asks for.
abbrev pub MayMove : Effect → String → ℕ → List (String × Task) → List (String × Task) → Type 0
MayMove effect id now before after =
    (after ≡ before)
    ⊎ ((state : TaskState) × (target effect ≡ some state)
        × (after ≡ adjust id (moved state now) before))

-- The tokens are as before, or the one token has been revoked.
abbrev pub MayRevoke : String → List (String × AgentToken) → List (String × AgentToken) → Type 0
MayRevoke id before after =
    (after ≡ before) ⊎ (after ≡ adjust id (λ row. record row { revoked = true }) before)

module _ (lib : Library) (sched : Option (Scheduler World)) (pol : Option (List Rule)) where
  abbrev pub server : Server
  server = new_server Postgres.store sched pol

  module _ (w : World) where
    set_task_state-post :
        (P : World → Type 0) (problem id : String) (state : TaskState)
        → P (Postgres.update_task_state id state w).1
        → P (set_task_state lib server problem id state w).1
    unfolding set_task_state
    set_task_state-post P problem id state h =
        on_error-post P (λ e. error problem) (Postgres.update_task_state id state) w h

    store_event-post :
        (P : World → Type 0) (e : Event)
        → P (Postgres.append_event e w).1
        → P (store_event lib server e w).1
    unfolding store_event
    store_event-post P e h =
        on_error-post P (wrap "failed to store event: ") (Postgres.append_event e) w h

    update-MayMove :
        (id : String) (effect : Effect) (state : TaskState)
        → target effect ≡ some state
        → MayMove effect id w.now w.db.tasks (Postgres.update_task_state id state w).1.db.tasks
    update-MayMove id effect state asked = elim (update_task_state-tasks w id state) [
      | inl same ↦ inl same
      | inr went ↦ inr (state, asked, went)
    ]

    apply_effect-tasks :
        (id : String) (effect : Effect)
        → MayMove effect id w.now w.db.tasks (apply_effect lib server id effect w).1.db.tasks
    unfolding apply_effect
    apply_effect-tasks id nothing = inl refl
    apply_effect-tasks id starts =
        set_task_state-post (λ v. MayMove starts id w.now w.db.tasks v.db.tasks)
          "failed to update task state" id running (update-MayMove id starts running refl)
    apply_effect-tasks id (finishes state) =
        let P = λ (v : World). MayMove (finishes state) id w.now w.db.tasks v.db.tasks in
        >>=-through P P (set_task_state lib server "failed to finalize task state" id state) _ w
          (set_task_state-post P "failed to finalize task state" id state
            (update-MayMove id (finishes state) state refl))
          (λ v h. h)
          (λ _ v h.
            subst (MayMove (finishes state) id w.now w.db.tasks)
              (sym (revoke_agent_token-tasks v id)) h)

    apply_effect-tokens :
        (id : String) (effect : Effect)
        → MayRevoke id w.db.tokens (apply_effect lib server id effect w).1.db.tokens
    unfolding apply_effect
    apply_effect-tokens id nothing = inl refl
    apply_effect-tokens id starts =
        set_task_state-post (λ v. MayRevoke id w.db.tokens v.db.tokens)
          "failed to update task state" id running (inl (update_task_state-tokens w id running))
    apply_effect-tokens id (finishes state) =
        >>=-through (λ v. v.db.tokens ≡ w.db.tokens) (λ v. MayRevoke id w.db.tokens v.db.tokens)
          (set_task_state lib server "failed to finalize task state" id state) _ w
          (set_task_state-post (λ v. v.db.tokens ≡ w.db.tokens) "failed to finalize task state" id
            state (update_task_state-tokens w id state))
          (λ v h. inl h)
          (λ _ v h.
            subst (λ t. MayRevoke id t (Postgres.revoke_agent_token id v).1.db.tokens) h
              (revoke_agent_token-tokens v id))

  abbrev SameTables : World → World → Type 0
  SameTables w v = (v.db ≡ w.db) × (v.now ≡ w.now)

  event_id-SameTables : (id : String) (w : World) → SameTables w (event_id lib server id w).1
  unfolding event_id generate_id rand_read
  event_id-SameTables id w = ground arith

  -- Tasks and tokens as they were, before the effect of the event.
  abbrev SameRows : World → World → Type 0
  SameRows w v = (v.db.tasks ≡ w.db.tasks) × (v.db.tokens ≡ w.db.tokens) × (v.now ≡ w.now)

  store_event-SameRows :
      (w v : World) (e : Event) → SameTables w v → SameRows w (store_event lib server e v).1
  store_event-SameRows w v e (db, now) = store_event-post v (SameRows w) e (
    append_event-tasks v e ∙ ap (λ d. d.tasks) db,
    append_event-tokens v e ∙ ap (λ d. d.tokens) db,
    append_event-now v e ∙ now,
  )

  -- What the tasks and the tokens may look like after the handler.
  abbrev pub Reached : CreateEventRequest → World → World → Type 0
  Reached req w v =
      MayMove (effect_of (event_type_of req.type)) req.task_id w.now w.db.tasks v.db.tasks
      × MayRevoke req.task_id w.db.tokens v.db.tokens

  apply_effect-Reached :
      (req : CreateEventRequest) (w v : World)
      → SameRows w v
      → Reached req w (apply_effect lib server req.task_id (effect_of (event_type_of req.type)) v).1
  apply_effect-Reached req w v (tasks, tokens, now) =
      let e = effect_of (event_type_of req.type) in
      (
        subst
            (λ (n : ℕ).
              MayMove e req.task_id n w.db.tasks
                (apply_effect lib server req.task_id e v).1.db.tasks)
            now
            (subst
              (λ t.
                MayMove e req.task_id v.now t (apply_effect lib server req.task_id e v).1.db.tasks)
              tasks (apply_effect-tasks v req.task_id e)),
        subst (λ t. MayRevoke req.task_id t (apply_effect lib server req.task_id e v).1.db.tokens)
            tokens (apply_effect-tokens v req.task_id e),
      )

  pub Reached-from :
      (req : CreateEventRequest) (w v u : World)
      → v.db ≡ w.db
      → v.now ≡ w.now
      → Reached req v u
      → Reached req w u
  Reached-from req w v u db now (tasks, tokens) =
      let e = effect_of (event_type_of req.type) in
      (
        subst (λ (n : ℕ). MayMove e req.task_id n w.db.tasks u.db.tasks) now
            (subst (λ (d : Db). MayMove e req.task_id v.now d.tasks u.db.tasks) db tasks),
        subst (λ (d : Db). MayRevoke req.task_id d.tokens u.db.tokens) db tokens,
      )

  pub record_event-Reached :
      (req : CreateEventRequest) (w : World) → Reached req w (record_event lib server req w).1
  unfolding record_event
  record_event-Reached req w =
      let effect = effect_of (event_type_of req.type) in
      >>=-through (SameTables w) (Reached req w) (event_id lib server req.id) _ w
        (event_id-SameTables req.id w)
        (λ v (db, now). (inl (ap (λ d. d.tasks) db), inl (ap (λ d. d.tokens) db)))
        (λ id v same.
          >>=-through (SameRows w) (Reached req w)
            (store_event lib server (new_event lib server req id v.now)) _ v
            (store_event-SameRows w v (new_event lib server req id v.now) same)
            (λ u (tasks, tokens, now). (inl tasks, inl tokens))
            (λ _ u rows.
              >>=-through (Reached req w) (Reached req w)
                (apply_effect lib server req.task_id effect) _ u (apply_effect-Reached req w u rows)
                (λ t h. h) (λ _ t h. h)))
