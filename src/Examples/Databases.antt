-- ===== src/Examples/Databases.antt =====
-- The Postgres store on small inputs.
use hermes_manager.Prelude.{
  ℕ, none, zero, suc, err, error, Exec, ◌≤◌, ◌≡◌, refl, true, false, some, [], ◌∷◌, ok, All, length,
  lookup, insert, adjust, is_absent, ◌==◌,
}
use hermes_manager.Storage.{TaskState, task_state_text, TaskFilter, running, pos, is_positive}
use hermes_manager.World.{World}
use hermes_manager.Postgres.{
  store_agent_token, verify_agent_token, revoke_agent_token, upsert_token, accepts,
}
use hermes_manager.Postgres.Statement.{statement}
use hermes_manager.Postgres.Query.{
  place, order_by, values, page, effective_limit, newer_task, task_passes, select_tasks,
}
use hermes_manager.Postgres.Retry.{Surroundings, Ends, with_retry, with_retry-Ends}
use hermes_manager.Postgres.TokenLife.{token_life}
use hermes_manager.Postgres.Paging.{IsNewestFirst, IsPage, select_tasks_lem}
use hermes_manager.Examples.Data.{task_of, world_of, busy_db}

abbrev after_store : World
after_store = (store_agent_token "t1" "#new" (world_of busy_db)).1

abbrev after_revoke : World
after_revoke = (revoke_agent_token "t1" after_store).1

stored : store_agent_token "t1" "#new" (world_of busy_db) ≡ (ok tt, after_store)
unfolding store_agent_token statement upsert_token is_absent lookup
stored = refl

verified : verify_agent_token "t1" "#new" after_store ≡ (ok true, after_store)
unfolding store_agent_token verify_agent_token statement upsert_token accepts is_absent lookup
    insert
verified = refl

revoked : revoke_agent_token "t1" after_store ≡ (ok tt, after_revoke)
unfolding revoke_agent_token statement store_agent_token
revoked = refl

refused : verify_agent_token "t1" "#new" after_revoke ≡ (ok false, after_revoke)
unfolding store_agent_token verify_agent_token revoke_agent_token statement upsert_token accepts
    is_absent lookup insert adjust
refused = refl

token_life_example : (true ≡ ("#new" == "#new")) × (false ≡ false)
token_life_example =
    token_life "t1" "#new" "#new" true false (world_of busy_db) after_store after_store after_revoke
      after_revoke stored verified revoked refused

abbrev any_task : TaskFilter
any_task = record { state = some running; limit = pos 1; offset = pos 0 }

listed : select_tasks any_task busy_db.tasks ≡ ok (task_of "t2" 20 running ∷ [])
unfolding select_tasks page effective_limit order_by place newer_task values task_passes
listed = refl

select_tasks_lem_example :
    ((n : ℕ) → pos 1 ≡ pos (suc n) → length (task_of "t2" 20 running ∷ []) ≤ suc n)
    × (is_positive (pos 1) ≡ false → length (task_of "t2" 20 running ∷ []) ≤ 50)
    × ((s : TaskState)
        → some running ≡ some s
        → All (λ t. task_state_text t.state ≡ task_state_text s) (task_of "t2" 20 running ∷ []))
    × IsNewestFirst (task_of "t2" 20 running ∷ [])
    × IsPage any_task busy_db.tasks (task_of "t2" 20 running ∷ [])
select_tasks_lem_example =
    select_tasks_lem any_task busy_db.tasks (task_of "t2" 20 running ∷ []) listed

-- A call that fails once and then succeeds, over the number of calls made.
abbrev flaky : Exec ℕ Unit
flaky zero = (err (error "deadline"), 1)
flaky (suc n) = (ok tt, suc (suc n))

abbrev surroundings : Surroundings
surroundings = record {
  pg_code = λ e. none;
  is_deadline = λ e. true;
  cancelled = λ attempt. none;
  itoa = λ n. "3";
}

with_retry-Ends_example : Ends surroundings 3 flaky 0 3 0 (with_retry surroundings 3 flaky 0)
with_retry-Ends_example = with_retry-Ends surroundings 3 flaky 0
