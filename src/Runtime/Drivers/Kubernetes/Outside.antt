-- ===== src/Runtime/Drivers/Kubernetes/Outside.antt =====
-- What a `Dispatch` of the Kubernetes driver leaves alone, for the theorems on the scheduler and on
-- `CreateTask` over any driver that keeps the tables.
use hermes_manager.Prelude.{
  String, ◌≡◌, Result, ok, err, Exec, Error, wrap, lift, on_error, on_error-post, >>=-post, arith,
}
use hermes_manager.Storage.{Task, Skill}
use hermes_manager.World.{World, ConfigMap, Job, rand_read}
use hermes_manager.Runtime.Drivers.Local.{TaskJson, task_json}
use hermes_manager.Scheduler.Dispatch.{KeepsTables}
use hermes_manager.Api.Server.{generate_token}
use hermes_manager.Runtime.Drivers.Kubernetes.{
  Client, Driver, on_cluster, config_map_of, remove_config_map, remove_both, recover, make_secret,
  make_job, make_config_map, make_objects, dispatch, k8s_runtime,
}

-- The database, its network and the clock are the same.
abbrev Outside : World → World → Type 0
Outside w v = (v.db ≡ w.db) × (v.net ≡ w.net) × (v.now ≡ w.now)

recover-Outside :
    {A : Type 0} (about : Error → Error) (clean_up : Exec World Unit) (w : World)
    (r : Result A × World)
    → ((v : World) → Outside w v → Outside w (clean_up v).1)
    → Outside w r.1
    → Outside w (recover about clean_up r).1
recover-Outside about clean_up w (ok a, v) keep h = h
recover-Outside about clean_up w (err e, v) keep h = keep v h

generate_token-Outside : (about : Error → Error) (w : World) → Outside w (generate_token about w).1
unfolding generate_token rand_read
generate_token-Outside about w = (ground arith, ground arith, ground arith)

module _ (c : Client) (d : Driver) (task : Task) where
  make_config_map-Outside :
      (text : String) (w v : World) → Outside w v → Outside w (make_config_map c d task text v).1
  unfolding make_config_map
  make_config_map-Outside text w v h =
      on_error-post (Outside w) (wrap "k8s: create configmap: ")
        (on_cluster (c.create_config_map d.namespace (config_map_of d task text))) v h

  make_job-Outside :
      (cm : ConfigMap) (w v : World) → Outside w v → Outside w (make_job c d task cm v).1
  unfolding make_job
  make_job-Outside cm w v h =
      recover-Outside (wrap "k8s: create job: ") (remove_config_map c d task) w _ (λ u k. k) h

  make_secret-Outside :
      (token : String) (j : Job) (w v : World)
      → Outside w v
      → Outside w (make_secret c d task token j v).1
  unfolding make_secret
  make_secret-Outside token j w v h =
      recover-Outside (wrap "k8s: create secret: ") (remove_both c d task j) w _ (λ u k. k) h

  make_objects-Outside :
      (token text : String) (w v : World)
      → Outside w v
      → Outside w (make_objects c d task token text v).1
  unfolding make_objects
  make_objects-Outside token text w v h =
      >>=-post (Outside w) (make_config_map c d task text) _ v (make_config_map-Outside text w v h)
        (λ cm v₁ _ h₁.
          >>=-post (Outside w) (make_job c d task cm) _ v₁ (make_job-Outside cm w v₁ h₁)
            (λ j v₂ _ h₂.
              >>=-post (Outside w) (make_secret c d task token j) _ v₂
                (make_secret-Outside token j w v₂ h₂) (λ s v₃ _ h₃. h₃)))

module _ (c : Client) (d : Driver) (marshal : TaskJson → Result String) where
  dispatch-Outside :
      (task : Task) (skill : Skill) (w : World) → Outside w (dispatch c d marshal task skill w).1
  unfolding dispatch
  dispatch-Outside task skill w =
      >>=-post (Outside w) (generate_token (wrap "k8s: generate agent token: ")) _ w
        (generate_token-Outside (wrap "k8s: generate agent token: ") w)
        (λ token v _ h.
          >>=-post (Outside w)
            (on_error (wrap "k8s: marshal task json: ") (lift (marshal (task_json task)))) _ v
            (on_error-post (Outside w) (wrap "k8s: marshal task json: ")
              (lift (marshal (task_json task))) v h)
            (λ text v₁ _ h₁. make_objects-Outside c d task token text w v₁ h₁))

  pub k8s_runtime-KeepsTables : KeepsTables (k8s_runtime c d marshal)
  unfolding k8s_runtime
  k8s_runtime-KeepsTables = record {
    db = λ task skill w. (dispatch-Outside task skill w).0;
    net = λ task skill w. (dispatch-Outside task skill w).1;
    now = λ task skill w. (dispatch-Outside task skill w).2;
  }
