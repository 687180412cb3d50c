-- ===== src/Api/Routes/Safe.antt =====
-- The requests that cannot change a table, over the Postgres store.
use hermes_manager.Prelude.{String, ◌⊎◌, inl, inr, ◌≡◌, refl, ap, false, Option, List, All, ◌==◌}
use hermes_manager.World.{World}
use hermes_manager.Policy.{Rule}
use hermes_manager.Scheduler.{Scheduler}
use hermes_manager.Postgres.{ping, get_skill, list_skills, get_task, list_tasks, list_events}
use hermes_manager.Postgres.Statement.{statement-db}
use hermes_manager.Api.Server.{Library}
use hermes_manager.Api.Auth.{Request, Handler}
use hermes_manager.Api.Probes.{handle_healthz, handle_readyz}
use hermes_manager.Api.Skills.{handle_list_skills, handle_get_skill}
use hermes_manager.Api.Tasks.{handle_list_tasks, handle_get_task}
use hermes_manager.Api.Listing.{handle_list_events}
use hermes_manager.Api.TaskService.Steps.{server}
use hermes_manager.Api.Routes.{Route, Http, routes, handler}
use hermes_manager.Api.Routes.Outcome.{IsMux, Serves, mux-post, auth_middleware-post}

-- The handler leaves the tables alone.
abbrev pub Reads : Handler → Type 0
Reads h = (req : Request) (w : World) → (h req w).1.db ≡ w.db

posts :
    (req : Request)
    → (req.method == "POST") ≡ false
    → ("POST" ≡ req.method) ⊎ ((◌≡◌ {A = String} "POST" "GET") × (req.method ≡ "HEAD"))
    → ⊥
posts req safe (inl post) = cc (ap (λ m. m == "POST") post)
posts req safe (inr (get, head)) = cc (ap (λ m. m == "POST") get)

module _ (lib : Library) (sched : Option (Scheduler World)) (pol : Option (List Rule))
    (w : World) where
  pub handle_readyz-db : (handle_readyz ping w).1.db ≡ w.db
  unfolding handle_readyz ping
  handle_readyz-db = statement-db (λ db. db ≡ w.db) _ w refl refl

  pub handle_list_skills-db : (handle_list_skills (server lib sched pol) w).1.db ≡ w.db
  unfolding handle_list_skills list_skills
  handle_list_skills-db = statement-db (λ db. db ≡ w.db) _ w refl refl

  pub handle_get_skill-db :
      (name : String) → (handle_get_skill (server lib sched pol) name w).1.db ≡ w.db
  unfolding handle_get_skill get_skill
  handle_get_skill-db name = statement-db (λ db. db ≡ w.db) _ w refl refl

  pub handle_list_tasks-db :
      (query : String → String) → (handle_list_tasks lib (server lib sched pol) query w).1.db ≡ w.db
  unfolding handle_list_tasks list_tasks
  handle_list_tasks-db query = statement-db (λ db. db ≡ w.db) _ w refl refl

  pub handle_get_task-db :
      (id : String) → (handle_get_task lib (server lib sched pol) id w).1.db ≡ w.db
  unfolding handle_get_task get_task
  handle_get_task-db id = statement-db (λ db. db ≡ w.db) _ w refl refl

  pub handle_list_events-db :
      (query : String → String)
      → (handle_list_events lib (server lib sched pol) query w).1.db ≡ w.db
  unfolding handle_list_events list_events
  handle_list_events-db query = statement-db (λ db. db ≡ w.db) _ w refl refl

module _ (http : Http) (lib : Library) (sched : Option (Scheduler World)) (pol : Option (List Rule))
    (pages : Reads http.pages) where
  routes-safe :
      (req : Request) (w : World)
      → (req.method == "POST") ≡ false
      → All
          (λ (r : Route). Serves r req → (r.handler req w).1.db ≡ w.db)
          (routes http lib (server lib sched pol) ping)
  unfolding handle_healthz
  routes-safe req w safe = (
    (λ _. refl),
    (
      (λ _. handle_readyz-db lib sched pol w),
      (
        (λ _. handle_list_skills-db lib sched pol w),
        (
          (λ _. handle_get_skill-db lib sched pol w (http.path_value req "name")),
          (
            (λ post. absurd (posts req safe post)),
            (
              (λ _. handle_list_tasks-db lib sched pol w (http.query req)),
              (
                (λ _. handle_get_task-db lib sched pol w (http.path_value req "id")),
                (
                  (λ post. absurd (posts req safe post)),
                  (
                    (λ _. handle_list_events-db lib sched pol w (http.query req)),
                    ((λ _. pages req w), tt),
                  ),
                ),
              ),
            ),
          ),
        ),
      ),
    ),
  )

  -- A request that is no POST changes no table: not with any API token, any path, header and body, and
  -- however the network fails the calls of the store, over a ServeMux that hands a request to a route
  -- of its method, or a HEAD request to a route of GET, or answers it alone, and web pages that leave
  -- the tables alone.
  pub handler-safe :
      (token : String) (req : Request) (w : World)
      → IsMux http.mux
      → (req.method == "POST") ≡ false
      → (handler http lib (server lib sched pol) ping token req w).1.db ≡ w.db
  unfolding handler
  handler-safe token req w mux safe =
      let rs = routes http lib (server lib sched pol) ping in
      auth_middleware-post (λ v. v.db ≡ w.db) req w refl lib.equal_fold token (http.mux rs)
        (mux-post (λ v. v.db ≡ w.db) req w refl http.mux rs mux (routes-safe req w safe))
