-- ===== src/Runtime/Drivers/Kubernetes/Cleanup.antt =====
-- What a `Dispatch` of the Kubernetes driver leaves in the namespace.
use hermes_manager.Prelude.{
  String, ◌≡◌, refl, sym, ap, subst, Result, ok, err, Exec, Error, wrap, on_error-eq-ok,
  on_error-eq-err, arith,
}
use hermes_manager.Storage.{Task}
use hermes_manager.World.{
  World, Cluster, ConfigMap, Secret, Job, a_config_map, a_job, a_secret, config_map, job, secret,
  find, rand_read,
}
use hermes_manager.Api.Server.{generate_token}
use hermes_manager.Runtime.Drivers.Kubernetes.{
  Client, Driver, on_cluster, recover, job_name, config_name, token_name, config_map_of, job_of,
  secret_of, remove_config_map, remove_both, make_secret, make_job, make_config_map,
}
use hermes_manager.Runtime.Drivers.Kubernetes.Served.{
  Api, config_map_with_uid, job_with_uid, secret_with_uid, Adds, SameObjects, Adds-same,
  Adds-removed,
}

on_cluster-eq :
    {A : Type 0} (call : Cluster → Result A × Cluster) (w w' : World) (r : Result A)
    → on_cluster call w ≡ (r, w')
    → call w.cluster ≡ (r, w'.cluster)
on_cluster-eq {A} call w w' r h = ap (λ (q : Result A × World). (q.0, q.1.cluster)) h

module _ {A : Type 0} (about : Error → Error) (clean_up : Exec World Unit) where
  recover-eq-ok :
      (r : Result A × World) (a : A) (w : World)
      → recover about clean_up r ≡ (ok a, w)
      → r ≡ (ok a, w)
  recover-eq-ok (ok b, v) a w h = h
  recover-eq-ok (err e, v) a w h = cc

  recover-eq-err :
      (r : Result A × World) (e : Error) (w : World)
      → recover about clean_up r ≡ (err e, w)
      → (cause : Error) × (v : World) × (r ≡ (err cause, v)) × (w ≡ (clean_up v).1)
  recover-eq-err (ok b, v) e w h = cc
  recover-eq-err (err cause, v) e w h = (cause, v, refl, cc)

pub generate_token-cluster :
    (about : Error → Error) (w : World) → (generate_token about w).1.cluster ≡ w.cluster
unfolding generate_token rand_read
generate_token-cluster about w = ground arith

module _ (c : Client) (d : Driver) (api : Api c d.namespace) (task : Task) where
  -- What each of the three calls does to the namespace.
  pub make_config_map-eq-ok :
      (task_data : String) (created : ConfigMap) (w v : World)
      → make_config_map c d task task_data w ≡ (ok created, v)
      → (u : String) × (created ≡ config_map_with_uid u (config_map_of d task task_data))
        × Adds config_map (config_name task) (a_config_map created) w.cluster v.cluster
  unfolding make_config_map
  make_config_map-eq-ok task_data created w v h =
      let call = c.create_config_map d.namespace (config_map_of d task task_data) in
      api.config_maps.accepted (config_map_of d task task_data) created w.cluster v.cluster (
        on_cluster-eq call w v (ok created)
          (on_error-eq-ok (wrap "k8s: create configmap: ") (on_cluster call) w created v h))

  pub make_config_map-eq-err :
      (task_data : String) (e : Error) (w v : World)
      → make_config_map c d task task_data w ≡ (err e, v)
      → SameObjects w.cluster v.cluster
  unfolding make_config_map
  make_config_map-eq-err task_data e w v h =
      let call = c.create_config_map d.namespace (config_map_of d task task_data) in
      let (cause, failed) =
        on_error-eq-err (wrap "k8s: create configmap: ") (on_cluster call) w e v h in
      let same =
        api.config_maps.refused (config_map_of d task task_data) cause w.cluster v.cluster
          (on_cluster-eq call w v (err cause) failed) in
      λ j m. ap (find j m) same

  pub make_job-eq-ok :
      (cm : ConfigMap) (created : Job) (w v : World)
      → make_job c d task cm w ≡ (ok created, v)
      → (u : String) × (created ≡ job_with_uid u (job_of d task cm))
        × Adds job (job_name task) (a_job created) w.cluster v.cluster
  unfolding make_job
  make_job-eq-ok cm created w v h =
      let call = c.create_job d.namespace (job_of d task cm) in
      api.jobs.accepted (job_of d task cm) created w.cluster v.cluster (
        on_cluster-eq call w v (ok created) (
          recover-eq-ok (wrap "k8s: create job: ") (remove_config_map c d task) (on_cluster call w)
            created v h))

  -- A refused job takes the config map with it.
  pub make_job-eq-err :
      (cm : ConfigMap) (e : Error) (u w v : World)
      → Adds config_map (config_name task) (a_config_map cm) u.cluster w.cluster
      → make_job c d task cm w ≡ (err e, v)
      → SameObjects u.cluster v.cluster
  unfolding make_job
  make_job-eq-err cm e u w v added h =
      let call = c.create_job d.namespace (job_of d task cm) in
      let (cause, mid, failed, cleaned) =
        recover-eq-err (wrap "k8s: create job: ") (remove_config_map c d task) (on_cluster call w) e
          v h in
      let same =
        api.jobs.refused (job_of d task cm) cause w.cluster mid.cluster
          (on_cluster-eq call w mid (err cause) failed) in
      subst (λ (x : World). SameObjects u.cluster x.cluster) (sym cleaned)
        (Adds-removed config_map (config_name task) (a_config_map cm) u.cluster mid.cluster
          api.config_map_deletes
          (Adds-same config_map (config_name task) (a_config_map cm) u.cluster w.cluster mid.cluster
            added (λ j m. ap (find j m) same)))

  pub make_secret-eq-ok :
      (token : String) (j : Job) (created : Secret) (w v : World)
      → make_secret c d task token j w ≡ (ok created, v)
      → (u : String) × (created ≡ secret_with_uid u (secret_of d task j token))
        × Adds secret (token_name task) (a_secret created) w.cluster v.cluster
  unfolding make_secret
  make_secret-eq-ok token j created w v h =
      let call = c.create_secret d.namespace (secret_of d task j token) in
      api.secrets.accepted (secret_of d task j token) created w.cluster v.cluster (
        on_cluster-eq call w v (ok created) (
          recover-eq-ok (wrap "k8s: create secret: ") (remove_both c d task j) (on_cluster call w)
            created v h))

  -- A refused secret takes the job and the config map with it.
  pub make_secret-eq-err :
      (token : String) (cm : ConfigMap) (j : Job) (e : Error) (u w₁ w v : World)
      → j.meta.name ≡ job_name task
      → Adds config_map (config_name task) (a_config_map cm) u.cluster w₁.cluster
      → Adds job (job_name task) (a_job j) w₁.cluster w.cluster
      → make_secret c d task token j w ≡ (err e, v)
      → SameObjects u.cluster v.cluster
  unfolding make_secret
  make_secret-eq-err token cm j e u w₁ w v name added added_job h =
      let call = c.create_secret d.namespace (secret_of d task j token) in
      let (cause, mid, failed, cleaned) =
        recover-eq-err (wrap "k8s: create secret: ") (remove_both c d task j) (on_cluster call w) e
          v h in
      let same =
        api.secrets.refused (secret_of d task j token) cause w.cluster mid.cluster
          (on_cluster-eq call w mid (err cause) failed) in
      let without_job : Cluster = (c.delete_job d.namespace (job_name task) mid.cluster).1 in
      let back : SameObjects w₁.cluster without_job =
        Adds-removed job (job_name task) (a_job j) w₁.cluster mid.cluster api.job_deletes (
          Adds-same job (job_name task) (a_job j) w₁.cluster w.cluster mid.cluster added_job
            (λ k m. ap (find k m) same)) in
      let all_gone : SameObjects u.cluster
          (c.delete_config_map d.namespace (config_name task) without_job).1 =
        Adds-removed config_map (config_name task) (a_config_map cm) u.cluster without_job
          api.config_map_deletes
          (Adds-same config_map (config_name task) (a_config_map cm) u.cluster w₁.cluster
            without_job added back) in
      subst (λ (x : World). SameObjects u.cluster x.cluster) (sym cleaned)
        (subst
          (λ (n : String).
            SameObjects u.cluster
              (c.delete_config_map d.namespace (config_name task)
                (c.delete_job d.namespace n mid.cluster).1).1)
          (sym name) all_gone)
