-- ===== src/Api/Events/Accepted.antt =====
-- What a request that is answered with 201 leaves behind.
use hermes_manager.Prelude.{
  ℕ, String, ◌≡◌, ◌≢◌, refl, ◌∙◌, sym, ap, subst, inl, inr, Bool, true, false, Option, some, List,
  [], arith, Result, ok, err, lookup, lookup-adjust_self, is_absent, ◌==◌, Bool-cases, Option-cases,
}
use hermes_manager.Api.Events.Transitions.{IsClosed}
use mathlib.Core.Option
use hermes_manager.Storage.{moved, TaskState, event_type_of}
use hermes_manager.World.{World, Db, AgentToken}
use hermes_manager.Policy.{Rule}
use hermes_manager.Scheduler.{Scheduler}
use hermes_manager.Postgres
use hermes_manager.Postgres.{accepts}
use hermes_manager.Postgres.Statement.{rest_of}
use hermes_manager.Postgres.Calls.{SameRest, verify_agent_token-eq-ok}
use hermes_manager.Api.Response.{Response, event_created, write_json}
use hermes_manager.Api.Server.{Library}
use hermes_manager.Api.Events.{
  EventPost, CreateEventRequest, bearer_token, after_verification, verified, with_body,
  respond_recorded, handle_create_event, new_event, record_event, effect_of, finishes,
}
use hermes_manager.Api.Events.Steps.{server}
use hermes_manager.Api.Events.Access.{IsAuthorized}
use hermes_manager.Api.Events.Tokens.{IsRecorded, record_event-eq-ok}

module _ (lib : Library) (sched : Option (Scheduler World)) (pol : Option (List Rule)) where
  -- The request was authorized and its event recorded, from a world with the tables of `w`.
  pub record IsAccepted (post : EventPost) (w : World) (response : Response) (w' : World)
      : Type 0 where
    pub req : CreateEventRequest
    pub authorized : IsAuthorized lib post req w
    pub start : World
    pub same_tables : start.db ≡ w.db
    pub same_rest : SameRest w start
    pub id : String
    pub answer : response ≡ write_json 201 (event_created id)
    pub recorded : IsRecorded lib sched pol req id start w'

  abbrev IfCreated : EventPost → World → Response × World → Type 0
  IfCreated post w (response, w') = response.status ≡ 201 → IsAccepted post w response w'

  module _ (post : EventPost) (w : World) where
    module _ (req : CreateEventRequest) (token : String)
        (header : bearer_token post.authorization ≡ some token) (body : post.body ≡ ok req) where
      recorded-IfCreated :
          (v : World) (r : Result String × World)
          → Postgres.verify_agent_token req.task_id (lib.sha256 token) w ≡ (ok true, v)
          → record_event lib (server lib sched pol) req v ≡ r
          → IfCreated post w (respond_recorded lib (server lib sched pol) r.0, r.1)
      recorded-IfCreated v (err e, u) valid h created = absurd (omega arith)
      recorded-IfCreated v (ok id, u) valid h created =
          let (answer, db, same) =
            verify_agent_token-eq-ok w v req.task_id (lib.sha256 token) true valid in
          record {
            req = req;
            authorized = record {
              token = token;
              header = header;
              body = body;
              accepted = sym answer;
            };
            start = v;
            same_tables = db;
            same_rest = same;
            id = id;
            answer = refl;
            recorded = record_event-eq-ok lib sched pol req id v u h;
          }

      after_verification-IfCreated :
          (r : Result Bool × World)
          → Postgres.verify_agent_token req.task_id (lib.sha256 token) w ≡ r
          → IfCreated post w (after_verification lib (server lib sched pol) req r.0 r.1)
      unfolding after_verification
      after_verification-IfCreated (err e, v) h created = absurd (omega arith)
      after_verification-IfCreated (ok false, v) h created = absurd (omega arith)
      after_verification-IfCreated (ok true, v) h created =
          recorded-IfCreated v (record_event lib (server lib sched pol) req v) h refl created

    with_body-IfCreated :
        (token : String) (body : Result CreateEventRequest)
        → bearer_token post.authorization ≡ some token
        → post.body ≡ body
        → IfCreated post w (with_body lib (server lib sched pol) token body w)
    unfolding with_body verified
    with_body-IfCreated token (err e) header body = λ created. absurd (omega arith)
    with_body-IfCreated token (ok req) header body = elim (Bool-cases (req.task_id == "")) [
      | inl empty ↦ rw empty (λ created. absurd (omega arith))
      | inr named ↦ rw named (after_verification-IfCreated req token header body _ refl)
    ]

    accepted : IfCreated post w (handle_create_event lib (server lib sched pol) post w)
    unfolding handle_create_event
    accepted = elim (Option-cases (bearer_token post.authorization)) [
      | inl missing ↦ rw (missing, handle_create_event) (λ created. absurd (omega arith))
      | inr (token, header) ↦
          rw (header, handle_create_event) (with_body-IfCreated token post.body header refl)
    ]

  same_body :
      (post : EventPost) (r q : CreateEventRequest) → post.body ≡ ok r → post.body ≡ ok q → r ≡ q
  same_body post r q h k = cc

  accepts_row :
      (id hash : String) (db : Db)
      → accepts (lookup id db.tokens) hash ≡ true
      → (row : AgentToken) × (lookup id db.tokens ≡ some row)
  unfolding accepts
  accepts_row id hash db h = ground arith

  finished :
      (post : EventPost) (w : World) (response : Response) (w' : World)
      (a : IsAccepted post w response w') (state : TaskState)
      → w.net ≡ []
      → effect_of (event_type_of a.req.type) ≡ finishes state
      → (lookup a.req.task_id w'.db.tasks
          ≡ Option.map (moved state w.now) (lookup a.req.task_id w.db.tasks))
        × IsClosed a.req.task_id w'.db
  finished post w response w' a state quiet eff =
      let id = a.req.task_id in
      let revoke = λ (row : AgentToken). record row { revoked = true } in
      let (tasks, tokens) = a.recorded.finished state (a.same_rest.net ∙ ap rest_of quiet) eff in
      let (row, stored) =
        accepts_row id (lib.sha256 a.authorized.token) w.db a.authorized.accepted in
      (
        ap (lookup id) tasks
            ∙ lookup-adjust_self id (moved state a.start.now) a.start.db.tasks
            ∙ ap (λ (n : ℕ). Option.map (moved state n) (lookup id a.start.db.tasks))
                a.same_rest.now
            ∙ ap (λ (d : Db). Option.map (moved state w.now) (lookup id d.tasks)) a.same_tables,
        (
          revoke row,
          ap (lookup id) tokens
              ∙ lookup-adjust_self id revoke a.start.db.tokens
              ∙ ap (λ (d : Db). Option.map revoke (lookup id d.tokens)) a.same_tables
              ∙ ap (Option.map revoke) stored,
          refl,
        ),
      )

  -- A request to POST /v1/events that is answered with 201, over any network, was authorized by its
  -- task's token. The event is stored under an identifier that was free before, which is the one in
  -- the answer, and which is the request's own unless that is empty; so a request that repeats a
  -- stored event's identifier is never answered with 201.
  pub created_event :
      (post : EventPost) (w : World)
      → (handle_create_event lib (server lib sched pol) post w).0.status ≡ 201
      → (req : CreateEventRequest) × IsAuthorized lib post req w
        × (id : String) × ((handle_create_event lib (server lib sched pol) post w).0
            ≡ write_json 201 (event_created id))
        × (req.id ≢ "" → id ≡ req.id)
        × (is_absent id w.db.events ≡ true)
        × (lookup id (handle_create_event lib (server lib sched pol) post w).1.db.events
            ≡ some (new_event lib (server lib sched pol) req id w.now))
  created_event post w created =
      let a = accepted post w created in
      (
        a.req,
        a.authorized,
        a.id,
        a.answer,
        a.recorded.given_id,
        subst (λ (d : Db). is_absent a.id d.events ≡ true) a.same_tables a.recorded.fresh,
        subst
            (λ n.
              lookup a.id (handle_create_event lib (server lib sched pol) post w).1.db.events
              ≡ some (new_event lib (server lib sched pol) a.req a.id n))
            a.same_rest.now a.recorded.stored,
      )

  -- An event that finishes its task, answered with 201 over a network that fails nothing, leaves the
  -- task in the state that the event stands for, all else of its row but the time of the update as
  -- before, and its token stored and revoked.
  pub finishing_event :
      (post : EventPost) (req : CreateEventRequest) (state : TaskState) (w : World)
      → w.net ≡ []
      → post.body ≡ ok req
      → effect_of (event_type_of req.type) ≡ finishes state
      → (handle_create_event lib (server lib sched pol) post w).0.status ≡ 201
      → (lookup req.task_id (handle_create_event lib (server lib sched pol) post w).1.db.tasks
          ≡ Option.map (moved state w.now) (lookup req.task_id w.db.tasks))
        × IsClosed req.task_id (handle_create_event lib (server lib sched pol) post w).1.db
  finishing_event post req state w quiet body eff created =
      let a = accepted post w created in
      let same_req : a.req ≡ req = same_body post a.req req a.authorized.body body in
      let w' = (handle_create_event lib (server lib sched pol) post w).1 in
      subst
        (λ (r : CreateEventRequest).
          (lookup r.task_id w'.db.tasks
            ≡ Option.map (moved state w.now) (lookup r.task_id w.db.tasks))
          × IsClosed r.task_id w'.db)
        same_req
        (finished post w (handle_create_event lib (server lib sched pol) post w).0 w' a state quiet
          (ap (λ (r : CreateEventRequest). effect_of (event_type_of r.type)) same_req ∙ eff))
