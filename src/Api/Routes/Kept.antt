-- ===== src/Api/Routes/Kept.antt =====
-- internal/api/router.go: a task behind a revoked token through sequences of requests to all routes,
-- over the Postgres store.
use hermes_manager.Prelude.{
  String, ◌≡◌, ◌∙◌, sym, subst, Option, List, [], ◌∷◌, All, Result, ok, err, Bool-cases, inl, inr,
  ◌==◌,
}
use hermes_manager.Storage.{Task}
use hermes_manager.World.{World, Db}
use hermes_manager.Policy.{Rule}
use hermes_manager.Postgres.{ping}
use hermes_manager.Api.Server.{Library, Server}
use hermes_manager.Api.Auth.{Request}
use hermes_manager.Api.Probes.{handle_healthz}
use hermes_manager.Api.Tasks.{answer_request, handle_create_task}
use hermes_manager.Api.TaskService.{CreateTaskRequest}
use hermes_manager.Api.TaskService.Steps.{server}
use hermes_manager.Api.TaskService.Success.{Runtimes, scheduler_of, AllKeepTables}
use hermes_manager.Api.TaskService.Kept.{create_task-IsKept}
use hermes_manager.Api.TaskService.Frozen.{IsFrozen}
use hermes_manager.Api.Events.{EventPost, handle_create_event}
use hermes_manager.Api.Events.Access.{handle_create_event-Ends}
use hermes_manager.Api.Events.Transitions.{Ends-IsClosed}
use hermes_manager.Api.Routes.{Route, Http, routes, handler}
use hermes_manager.Api.Routes.Outcome.{IsMux, Serves, mux-post, auth_middleware-post}
use hermes_manager.Api.Routes.Safe.{
  Reads, handle_readyz-db, handle_list_skills-db, handle_get_skill-db, handle_list_tasks-db,
  handle_get_task-db, handle_list_events-db,
}

module _ (lib : Library) (runtimes : Option Runtimes) (pol : Option (List Rule)) where
  abbrev pub full_server : Server
  full_server = server lib (scheduler_of runtimes) pol

module _ (http : Http) (lib : Library) (runtimes : Option Runtimes) (pol : Option (List Rule)) where
  -- The world after a sequence of requests.
  unfoldable pub run_requests : String → List Request → World → World
  run_requests token [] w = w
  run_requests token (req ∷ reqs) w =
      run_requests token reqs (handler http lib (full_server lib runtimes pol) ping token req w).1

module _ (http : Http) (lib : Library) (runtimes : Option Runtimes) (pol : Option (List Rule))
    (keep : AllKeepTables runtimes) (pages : Reads http.pages) (id : String) (t : Task) where
  abbrev Keeps : World → Type 0
  Keeps w = IsFrozen id t w.db

  same_db : (w : World) (d : Db) → Keeps w → d ≡ w.db → IsFrozen id t d
  same_db w d c same = subst (IsFrozen id t) (sym same) c

  handle_create_task-Keeps :
      (body : Result CreateTaskRequest) (w : World)
      → Keeps w
      → Keeps (handle_create_task lib (full_server lib runtimes pol) body w).1
  unfolding handle_create_task answer_request
  handle_create_task-Keeps (err e) w c = c
  handle_create_task-Keeps (ok req) w c = elim (Bool-cases (req.skill_name == "")) [
    | inl unnamed ↦ rw (unnamed, handle_create_task) c
    | inr named ↦
        rw (named, handle_create_task) (create_task-IsKept id t lib runtimes pol keep req w c)
  ]

  handle_create_event-Keeps :
      (post : EventPost) (w : World)
      → Keeps w
      → Keeps (handle_create_event lib (full_server lib runtimes pol) post w).1
  handle_create_event-Keeps post w (there, closed) =
      let sched = scheduler_of runtimes in
      let (same, still) =
        Ends-IsClosed lib sched pol id post w
          (handle_create_event lib (server lib sched pol) post w)
          (handle_create_event-Ends lib sched pol post w) closed in
      (same ∙ there, still)

  routes-Keeps :
      (req : Request) (w : World)
      → Keeps w
      → All
          (λ (r : Route). Serves r req → Keeps (r.handler req w).1)
          (routes http lib (full_server lib runtimes pol) ping)
  unfolding handle_healthz
  routes-Keeps req w c =
      let sched = scheduler_of runtimes in
      (
        (λ _. c),
        (
          (λ _. same_db w _ c (handle_readyz-db lib sched pol w)),
          (
            (λ _. same_db w _ c (handle_list_skills-db lib sched pol w)),
            (
              (λ _.
                  same_db w _ c (handle_get_skill-db lib sched pol w (http.path_value req "name"))),
              (
                (λ _. handle_create_task-Keeps (http.task_body req) w c),
                (
                  (λ _. same_db w _ c (handle_list_tasks-db lib sched pol w (http.query req))),
                  (
                    (λ _.
                        same_db w _ c
                          (handle_get_task-db lib sched pol w (http.path_value req "id"))),
                    (
                      (λ _. handle_create_event-Keeps (http.event_post req) w c),
                      (
                        (λ _.
                            same_db w _ c (handle_list_events-db lib sched pol w (http.query req))),
                        ((λ _. same_db w _ c (pages req w)), tt),
                      ),
                    ),
                  ),
                ),
              ),
            ),
          ),
        ),
      )

  handler-Keeps :
      (token : String) (req : Request) (w : World)
      → IsMux http.mux
      → Keeps w
      → Keeps (handler http lib (full_server lib runtimes pol) ping token req w).1
  unfolding handler
  handler-Keeps token req w mux c =
      let rs = routes http lib (full_server lib runtimes pol) ping in
      auth_middleware-post Keeps req w c lib.equal_fold token (http.mux rs)
        (mux-post Keeps req w c http.mux rs mux (routes-Keeps req w c))

  -- Once a task's token is revoked, no sequence of requests to any of the routes, with any API token,
  -- however the network and the source of random bytes fail, changes the task's row or makes the token
  -- valid again. (Over a ServeMux that hands a request to a route of its method, or a HEAD request to a
  -- route of GET, or answers it alone, and drivers and web pages that leave the tables alone.)
  pub run_requests-IsFrozen :
      (token : String) (reqs : List Request) (w : World)
      → IsMux http.mux
      → IsFrozen id t w.db
      → IsFrozen id t (run_requests http lib runtimes pol token reqs w).db
  unfolding run_requests
  run_requests-IsFrozen token [] w mux c = c
  run_requests-IsFrozen token (req ∷ reqs) w mux c =
      run_requests-IsFrozen token reqs _ mux (handler-Keeps token req w mux c)
