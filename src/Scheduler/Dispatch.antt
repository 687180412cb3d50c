-- ===== src/Scheduler/Dispatch.antt =====
-- `Dispatch` over the Postgres store.
use hermes_manager.Prelude.{
  String, ◌≡◌, ◌∙◌, ap, subst, false, some, List, Result, ok, lookup, adjust, is_absent, on_error,
  on_error-eq-ok, >>=-eq-ok, wrap, Option-cases, inl, inr,
}
use hermes_manager.Storage.{Task, Skill, running}
use hermes_manager.World.{World}
use hermes_manager.Postgres
use hermes_manager.Postgres.Statement.{rest_of}
use hermes_manager.Postgres.Calls.{update_task_state-eq-ok}
use hermes_manager.Runtime.{Runtime, Handle}
use hermes_manager.Scheduler.{new_scheduler, about_dispatch, dispatch_on, dispatch}

-- A driver whose `Dispatch` leaves the database, its network and the clock alone.
pub record KeepsTables (rt : Runtime World) : Type 0 where
  pub db : (t : Task) (sk : Skill) (w : World) → (rt.dispatch t sk w).1.db ≡ w.db
  pub net : (t : Task) (sk : Skill) (w : World) → (rt.dispatch t sk w).1.net ≡ w.net
  pub now : (t : Task) (sk : Skill) (w : World) → (rt.dispatch t sk w).1.now ≡ w.now

-- What a dispatch that returned a handle has done.
pub record IsDispatched (rt : Runtime World) (task : Task) (skill : Skill) (handle : Handle)
    (w w' : World) : Type 0 where
  pub middle : World
  pub started : rt.dispatch task skill w ≡ (ok handle, middle)
  pub there : is_absent task.id middle.db.tasks ≡ false
  pub db : w'.db ≡ record middle.db {
    tasks =
        adjust task.id (λ t. record t { state = running; updated_at = middle.now }) middle.db.tasks;
  }
  pub net : w'.net ≡ rest_of middle.net
  pub now : w'.now ≡ middle.now

dispatch_on-eq-ok :
    (rt : Runtime World) (task : Task) (skill : Skill) (handle : Handle) (w w' : World)
    → dispatch_on Postgres.store rt task skill w ≡ (ok handle, w')
    → IsDispatched rt task skill handle w w'
unfolding dispatch_on
dispatch_on-eq-ok rt task skill handle w w' h =
    let about = about_dispatch task in
    let (handle₁, w₁, started, h₁) =
      >>=-eq-ok (on_error about (rt.dispatch task skill)) _ w handle w' h in
    let (_, w₂, updated, h₂) =
      >>=-eq-ok
        (on_error (wrap "scheduler: update task state: ")
          (Postgres.update_task_state task.id running))
        _ w₁ handle w' h₁ in
    let (there, _, db, rest) = update_task_state-eq-ok w₁ w₂ task.id running (
      on_error-eq-ok (wrap "scheduler: update task state: ")
        (Postgres.update_task_state task.id running) w₁ tt w₂ updated) in
    let same_handle : handle₁ ≡ handle = cc in
    let end : w₂ ≡ w' = ap (λ (r : Result Handle × World). r.1) h₂ in
    record {
      middle = w₁;
      started =
          on_error-eq-ok about (rt.dispatch task skill) w handle₁ w₁ started
          ∙ ap (λ (k : Handle). (ok k, w₁)) same_handle;
      there = there;
      db =
          subst
            (λ (u : World). u.db ≡ record w₁.db {
              tasks =
                  adjust task.id (λ t. record t { state = running; updated_at = w₁.now })
                    w₁.db.tasks;
            })
            end db;
      net = subst (λ (u : World). u.net ≡ rest_of w₁.net) end rest.net;
      now = subst (λ (u : World). u.now ≡ w₁.now) end rest.now;
    }

module _ (runtimes : List (String × Runtime World)) where
  -- A dispatch that returns a handle ran the runtime that the task names, and leaves the task
  -- running, whatever state an event had given it in the meantime.
  pub dispatch-eq-ok :
      (task : Task) (skill : Skill) (handle : Handle) (w w' : World)
      → dispatch (new_scheduler runtimes Postgres.store) task skill w ≡ (ok handle, w')
      → (rt : Runtime World) × (lookup task.runtime runtimes ≡ some rt)
        × IsDispatched rt task skill handle w w'
  unfolding dispatch new_scheduler
  dispatch-eq-ok task skill handle w w' h = elim (Option-cases (lookup task.runtime runtimes)) [
    | inl missing ↦ cc (rw (missing, dispatch) at h)
    | inr (rt, found) ↦
        (rt, found, dispatch_on-eq-ok rt task skill handle w w' (rw (found, dispatch) at h))
  ]
