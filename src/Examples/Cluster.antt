-- ===== src/Examples/Cluster.antt =====
-- A small Kubernetes server, which accepts secrets or refuses them.
use hermes_manager.Prelude.{
  String, Bool, true, false, [], ok, err, error, insert, delete, is_absent, if◌then◌else◌,
}
use hermes_manager.World.{a_config_map, a_job, a_secret, config_map, job, secret}
use hermes_manager.Runtime.Drivers.Kubernetes.{Client}
use hermes_manager.Runtime.Drivers.Kubernetes.Served.{
  Creates, Api, config_map_with_uid, job_with_uid, secret_with_uid,
}
use hermes_manager.Examples.Tables.{
  taken, put_config_maps, put_jobs, put_secrets, config_maps-IsTable, jobs-IsTable, secrets-IsTable,
  create-Creates, deletes,
}

abbrev pub small_client : Bool → Client
small_client secrets = record {
  create_config_map = λ ns v c.
      if is_absent v.meta.name c.config_maps
      then (
        ok (config_map_with_uid "u1" v),
        record c { config_maps = insert v.meta.name (config_map_with_uid "u1" v) c.config_maps },
      )
      else (err taken, c);
  create_job = λ ns v c.
      if is_absent v.meta.name c.jobs
      then (
        ok (job_with_uid "u2" v),
        record c { jobs = insert v.meta.name (job_with_uid "u2" v) c.jobs },
      )
      else (err taken, c);
  create_secret = λ ns v c.
      if secrets
      then (if is_absent v.meta.name c.secrets
          then (
            ok (secret_with_uid "u3" v),
            record c { secrets = insert v.meta.name (secret_with_uid "u3" v) c.secrets },
          )
          else (err taken, c))
      else (err (error "forbidden"), c);
  delete_config_map = λ ns n c. (ok tt, record c { config_maps = delete n c.config_maps });
  delete_job = λ ns n c. (ok tt, record c { jobs = delete n c.jobs });
  list_jobs = λ ns selector c. ok [];
}

refused_secrets :
    Creates secret a_secret (λ v. v.meta.name) secret_with_uid (λ v c. (err (error "forbidden"), c))
refused_secrets = record { accepted = λ v v' c c' h. cc; refused = λ v e c c' h. cc }

pub small_client-Api : (secrets : Bool) (ns : String) → Api (small_client secrets) ns
small_client-Api true ns = record {
  config_maps =
      create-Creates config_map a_config_map (λ v. v.meta.name) config_map_with_uid
        (λ c. c.config_maps) put_config_maps "u1" config_maps-IsTable;
  jobs =
      create-Creates job a_job (λ v. v.meta.name) job_with_uid (λ c. c.jobs) put_jobs "u2"
        jobs-IsTable;
  secrets =
      create-Creates secret a_secret (λ v. v.meta.name) secret_with_uid (λ c. c.secrets) put_secrets
        "u3" secrets-IsTable;
  config_map_deletes =
      deletes config_map a_config_map (λ v. v.meta.name) config_map_with_uid (λ c. c.config_maps)
        put_config_maps "u1" config_maps-IsTable;
  job_deletes =
      deletes job a_job (λ v. v.meta.name) job_with_uid (λ c. c.jobs) put_jobs "u2" jobs-IsTable;
}
small_client-Api false ns = record {
  config_maps =
      create-Creates config_map a_config_map (λ v. v.meta.name) config_map_with_uid
        (λ c. c.config_maps) put_config_maps "u1" config_maps-IsTable;
  jobs =
      create-Creates job a_job (λ v. v.meta.name) job_with_uid (λ c. c.jobs) put_jobs "u2"
        jobs-IsTable;
  secrets = refused_secrets;
  config_map_deletes =
      deletes config_map a_config_map (λ v. v.meta.name) config_map_with_uid (λ c. c.config_maps)
        put_config_maps "u1" config_maps-IsTable;
  job_deletes =
      deletes job a_job (λ v. v.meta.name) job_with_uid (λ c. c.jobs) put_jobs "u2" jobs-IsTable;
}
