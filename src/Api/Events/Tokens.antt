-- ===== src/Api/Events/Tokens.antt =====
-- What an accepted event leaves behind: the stored event, the task's state, the token.
use hermes_manager.Prelude.{
  ℕ, String, ◌≡◌, ◌≢◌, ◌∙◌, sym, ap, subst, true, Option, some, List, [], arith, Result, ok, lookup,
  insert, lookup-insert_self, adjust, is_absent, on_error-eq-ok, >>=-eq-ok, error, wrap, eq_iff,
}
use hermes_manager.Storage.{moved, TaskState, running, Event, event_type_of}
use hermes_manager.World.{rand_read, World, Db}
use hermes_manager.Policy.{Rule}
use hermes_manager.Scheduler.{Scheduler}
use hermes_manager.Postgres
use hermes_manager.Postgres.Statement.{rest_of}
use hermes_manager.Postgres.Calls.{
  append_event-eq-ok, update_task_state-eq-ok, revoke_agent_token-tokens_quiet,
  revoke_agent_token-tasks, revoke_agent_token-events,
}
use hermes_manager.Api.Server.{Library, generate_id}
use hermes_manager.Api.Events.{
  Effect, finishes, starts, nothing, effect_of, apply_effect, set_task_state, store_event, event_id,
  new_event, record_event, CreateEventRequest,
}
use hermes_manager.Api.Events.Steps.{server}

module _ (lib : Library) (sched : Option (Scheduler World)) (pol : Option (List Rule)) where
  set_task_state-eq-ok :
      (problem id : String) (state : TaskState) (w w' : World)
      → set_task_state lib (server lib sched pol) problem id state w ≡ (ok tt, w')
      → (w'.db.tasks ≡ adjust id (moved state w.now) w.db.tasks)
        × (w'.db.tokens ≡ w.db.tokens)
        × (w'.db.events ≡ w.db.events)
        × (w'.net ≡ rest_of w.net)
  unfolding set_task_state
  set_task_state-eq-ok problem id state w w' h =
      let (_, _, db, rest) =
        update_task_state-eq-ok w w' id state
          (on_error-eq-ok (λ e. error problem) (Postgres.update_task_state id state) w tt w' h) in
      (
        ap (λ (d : Db). d.tasks) db,
        ap (λ (d : Db). d.tokens) db,
        ap (λ (d : Db). d.events) db,
        rest.net,
      )

  -- A finishing event on a network that fails nothing.
  apply_effect_finishes :
      (id : String) (state : TaskState) (w w' : World)
      → w.net ≡ []
      → apply_effect lib (server lib sched pol) id (finishes state) w ≡ (ok tt, w')
      → (w'.db.tasks ≡ adjust id (moved state w.now) w.db.tasks)
        × (w'.db.tokens ≡ adjust id (λ row. record row { revoked = true }) w.db.tokens)
  unfolding apply_effect
  apply_effect_finishes id state w w' quiet h =
      let (_, v, set, rest) =
        >>=-eq-ok
          (set_task_state lib (server lib sched pol) "failed to finalize task state" id state) _ w
          tt w' h in
      let (tasks, tokens, _, net) = set_task_state-eq-ok _ id state w v set in
      let end : (Postgres.revoke_agent_token id v).1 ≡ w' =
        ap (λ (r : Result (Unit {0}) × World). r.1) rest in
      (
        subst (λ (u : World). u.db.tasks ≡ adjust id (moved state w.now) w.db.tasks) end
            (revoke_agent_token-tasks v id ∙ tasks),
        subst
            (λ (u : World).
              u.db.tokens ≡ adjust id (λ row. record row { revoked = true }) w.db.tokens)
            end
            (revoke_agent_token-tokens_quiet id v (net ∙ ap rest_of quiet)
              ∙ ap (adjust id (λ row. record row { revoked = true })) tokens),
      )

  store_event-eq-ok :
      (e : Event) (w w' : World)
      → store_event lib (server lib sched pol) e w ≡ (ok tt, w')
      → (is_absent e.id w.db.events ≡ true)
        × (w'.db ≡ record w.db { events = insert e.id e w.db.events })
        × (w'.now ≡ w.now)
        × (w'.net ≡ rest_of w.net)
  unfolding store_event
  store_event-eq-ok e w w' h =
      let (fresh, _, _, db, rest) =
        append_event-eq-ok w w' e
          (on_error-eq-ok (wrap "failed to store event: ") (Postgres.append_event e) w tt w' h) in
      (fresh, db, rest.now, rest.net)

  apply_effect-events :
      (id : String) (effect : Effect) (w w' : World)
      → apply_effect lib (server lib sched pol) id effect w ≡ (ok tt, w')
      → w'.db.events ≡ w.db.events
  unfolding apply_effect
  apply_effect-events id nothing w w' h =
      ap (λ (r : Result (Unit {0}) × World). r.1.db.events) (sym h)
  apply_effect-events id starts w w' h =
      (set_task_state-eq-ok "failed to update task state" id running w w' h).2
  apply_effect-events id (finishes state) w w' h =
      let (_, v, set, rest) =
        >>=-eq-ok
          (set_task_state lib (server lib sched pol) "failed to finalize task state" id state) _ w
          tt w' h in
      let (_, _, events, _) = set_task_state-eq-ok _ id state w v set in
      ap (λ (r : Result (Unit {0}) × World). r.1.db.events) (sym rest)
      ∙ revoke_agent_token-events v id
      ∙ events

  event_id-eq-ok :
      (given id : String) (w w' : World)
      → event_id lib (server lib sched pol) given w ≡ (ok id, w')
      → (given ≢ "" → id ≡ given) × (w'.db ≡ w.db) × (w'.now ≡ w.now) × (w'.net ≡ w.net)
  unfolding event_id generate_id rand_read
  event_id-eq-ok given id w w' h =
      (λ named. ground (arith, eq_iff given ""), ground arith, ground arith, ground arith)

  -- The parts of a recorded event.
  pub record IsRecorded (req : CreateEventRequest) (id : String) (w w' : World) : Type 0 where
    pub given_id : req.id ≢ "" → id ≡ req.id
    pub fresh : is_absent id w.db.events ≡ true
    pub stored : lookup id w'.db.events ≡ some (new_event lib (server lib sched pol) req id w.now)
    pub finished :
        (state : TaskState)
        → w.net ≡ []
        → effect_of (event_type_of req.type) ≡ finishes state
        → (w'.db.tasks ≡ adjust req.task_id (moved state w.now) w.db.tasks)
          × (w'.db.tokens ≡ adjust req.task_id (λ row. record row { revoked = true }) w.db.tokens)

  IsRecorded-to :
      (req : CreateEventRequest) (i j : String) (w u v : World)
      → ◌≡◌ {A = Result String × World} (ok i, u) (ok j, v)
      → IsRecorded req i w u
      → IsRecorded req j w v
  IsRecorded-to req i j w u v e h =
      let same_id : i ≡ j = cc in
      let same_world : u ≡ v = ap (λ (r : Result String × World). r.1) e in
      subst (λ k. IsRecorded req k w v) same_id (subst (λ x. IsRecorded req i w x) same_world h)

  IsRecorded-steps :
      (req : CreateEventRequest) (id : String) (w w₁ w₂ w₃ : World)
      → event_id lib (server lib sched pol) req.id w ≡ (ok id, w₁)
      → store_event lib
          (server lib sched pol)
          (new_event lib (server lib sched pol) req id w₁.now)
          w₁
        ≡ (ok tt, w₂)
      → apply_effect lib (server lib sched pol) req.task_id (effect_of (event_type_of req.type)) w₂
        ≡ (ok tt, w₃)
      → IsRecorded req id w w₃
  IsRecorded-steps req id w w₁ w₂ w₃ identified stored applied =
      let event = λ (now : ℕ). new_event lib (server lib sched pol) req id now in
      let (given, db₁, now₁, net₁) = event_id-eq-ok req.id id w w₁ identified in
      let (fresh, db₂, now₂, net₂) = store_event-eq-ok (event w₁.now) w₁ w₂ stored in
      let events₃ = apply_effect-events req.task_id _ w₂ w₃ applied in
      record {
        given_id = given;
        fresh = subst (λ (d : Db). is_absent id d.events ≡ true) db₁ fresh;
        stored =
            ap (lookup id) (events₃ ∙ ap (λ (d : Db). d.events) db₂)
            ∙ lookup-insert_self id (event w₁.now) w₁.db.events
            ∙ ap (λ n. some (event n)) now₁;
        finished = λ state quiet eff.
            let (tasks₃, tokens₃) =
              apply_effect_finishes req.task_id state w₂ w₃ (net₂ ∙ ap rest_of (net₁ ∙ quiet)) (
                subst (λ e. apply_effect lib (server lib sched pol) req.task_id e w₂ ≡ (ok tt, w₃))
                  eff applied) in
            let db : w₂.db.tasks ≡ w.db.tasks =
              ap (λ (d : Db). d.tasks) db₂ ∙ ap (λ (d : Db). d.tasks) db₁ in
            let tokens : w₂.db.tokens ≡ w.db.tokens =
              ap (λ (d : Db). d.tokens) db₂ ∙ ap (λ (d : Db). d.tokens) db₁ in
            (
              tasks₃
                  ∙ ap (λ n. adjust req.task_id (moved state n) w₂.db.tasks) (now₂ ∙ now₁)
                  ∙ ap (adjust req.task_id (moved state w.now)) db,
              tokens₃ ∙ ap (adjust req.task_id (λ row. record row { revoked = true })) tokens,
            );
      }

  pub record_event-eq-ok :
      (req : CreateEventRequest) (id : String) (w w' : World)
      → record_event lib (server lib sched pol) req w ≡ (ok id, w')
      → IsRecorded req id w w'
  unfolding record_event
  record_event-eq-ok req id w w' h =
      let s = server lib sched pol in
      let effect = effect_of (event_type_of req.type) in
      let (i, w₁, identified, h₁) = >>=-eq-ok (event_id lib s req.id) _ w id w' h in
      let (_, w₂, stored, h₂) =
        >>=-eq-ok (store_event lib s (new_event lib s req i w₁.now)) _ w₁ id w' h₁ in
      let (_, w₃, applied, h₃) = >>=-eq-ok (apply_effect lib s req.task_id effect) _ w₂ id w' h₂ in
      IsRecorded-to req i id w w₃ w' h₃
        (IsRecorded-steps req i w w₁ w₂ w₃ identified stored applied)
