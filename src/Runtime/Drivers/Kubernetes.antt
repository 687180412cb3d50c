-- ===== src/Runtime/Drivers/Kubernetes.antt =====
-- internal/runtime/k8s/driver.go. The Kubernetes API is a parameter that reads and changes the objects
-- of the namespace; `getenv` is `os.Getenv`.
pub mod Setup
pub mod Served
pub mod Cleanup
pub mod Deployed
pub mod Outside
use Prim.Native.String
use Prim.Native.String.{[] as empty}
use hermes_manager.Prelude.{
  ℕ, ◌+◌, String, Bool, true, false, Option, none, some, List, [], ◌∷◌, Result, ok, err, Exec,
  Error, wrap, lift, pure, on_error, ◌>>=◌, ◌>>◌, ◌==◌, if◌then◌else◌,
}
use hermes_manager.Storage.{Task, Skill, ℤ, pos, is_positive}
use hermes_manager.World.{
  World, Cluster, ObjectMeta, OwnerReference, ConfigMap, Secret, Job, JobSpec, Container, EnvValue,
  value, secret_key_ref,
}
use hermes_manager.Runtime.{Runtime, Handle}
use hermes_manager.Runtime.Drivers.Local.{TaskJson, task_json}
use hermes_manager.Api.Server.{generate_token}

-- What the driver calls of `kubernetes.Interface`, each with the namespace first. A created object
-- comes back as the server has stored it.
pub record Client : Type 0 where
  pub create_config_map : String → ConfigMap → Cluster → Result ConfigMap × Cluster
  pub create_job : String → Job → Cluster → Result Job × Cluster
  pub create_secret : String → Secret → Cluster → Result Secret × Cluster
  pub delete_config_map : String → String → Cluster → Result (Unit {0}) × Cluster
  pub delete_job : String → String → Cluster → Result (Unit {0}) × Cluster
  -- by the label selector
  pub list_jobs : String → String → Cluster → Result (List Job)

pub record Driver : Type 0 where
  pub client : Option Client
  pub namespace : String
  pub port : String
  pub image : String

abbrev pub max_concurrency : ℕ
max_concurrency = 50

abbrev pub on_cluster {ℓ} : {A : Type ℓ} → (Cluster → Result A × Cluster) → World → Result A × World
on_cluster call w = ((call w.cluster).0, record w { cluster = (call w.cluster).1 })

-- `_ = ...`: a call whose error is dropped.
abbrev pub discard : {A : Type 0} → Exec World A → Exec World Unit
discard m w = (ok tt, (m w).1)

-- The early return of a call that failed, behind a clean-up.
abbrev pub recover :
    {A : Type 0} → (Error → Error) → Exec World Unit → Result A × World → Result A × World
recover about clean_up (ok a, w) = (ok a, w)
recover about clean_up (err e, w) = (err (about e), (clean_up w).1)

abbrev pub or_clean_up :
    {A : Type 0} → (Error → Error) → Exec World Unit → Exec World A → Exec World A
or_clean_up about clean_up m w = recover about clean_up (m w)

abbrev pub job_name : Task → String
job_name task = String.◌++◌ "hermesmanager-" task.id

abbrev pub config_name : Task → String
config_name task = String.◌++◌ (job_name task) "-config"

abbrev pub token_name : Task → String
token_name task = String.◌++◌ (job_name task) "-token"

abbrev pub labels_of : Task → List (String × String)
labels_of task = ("hermesmanager.io/managed", "true") ∷ ("hermesmanager.io/task-id", task.id) ∷ []

abbrev pub owner_of : Job → OwnerReference
owner_of created_job = record {
  api_version = "batch/v1";
  kind = "Job";
  name = created_job.meta.name;
  uid = created_job.meta.uid;
  controller = true;
}

module _ (d : Driver) where
  abbrev pub callback_url : String
  callback_url = String.◌++◌ "http://hermesmanager." (
      String.◌++◌ d.namespace (String.◌++◌ ".svc.cluster.local:" (String.◌++◌ d.port "/v1/events")))

  abbrev pub meta_of : Task → String → List OwnerReference → ObjectMeta
  meta_of task name owners = record {
    name = name;
    namespace = d.namespace;
    labels = labels_of task;
    owner_references = owners;
    uid = empty;
  }

  abbrev pub config_map_of : Task → String → ConfigMap
  config_map_of task task_data = record {
    meta = meta_of task (config_name task) [];
    contents = ("task.json", task_data) ∷ [];
  }

  abbrev pub container_of : Task → Container
  container_of task = record {
    name = "agent";
    image = d.image;
    env =
        ("HERMESMANAGER_TASK_ID", value task.id)
        ∷ ("HERMESMANAGER_CALLBACK_URL", value callback_url)
        ∷ ("HERMESMANAGER_AGENT_TOKEN", secret_key_ref (token_name task) "token")
        ∷ [];
    volume_mounts =
        record { name = "task-config"; mount_path = "/etc/hermesmanager"; read_only = true } ∷ [];
  }

  abbrev pub job_of : Task → ConfigMap → Job
  job_of task created_cm = record {
    meta = meta_of task (job_name task) [];
    spec = record {
      backoff_limit = pos 0;
      labels = labels_of task;
      restart_policy = "Never";
      containers = container_of task ∷ [];
      volumes = ("task-config", created_cm.meta.name) ∷ [];
    };
    active = pos 0;
  }

  abbrev pub secret_of : Task → Job → String → Secret
  secret_of task created_job agent_token = record {
    meta = meta_of task (token_name task) (owner_of created_job ∷ []);
    string_data = ("token", agent_token) ∷ [];
  }

-- The loop of `Status`.
unfoldable pub count_active : List Job → ℕ
count_active [] = 0
count_active (j ∷ js) =
    let rest = count_active js in if is_positive j.active then rest + 1 else rest

module _ (c : Client) (d : Driver) where
  abbrev pub remove_config_map : Task → Exec World Unit
  remove_config_map task = discard (on_cluster (c.delete_config_map d.namespace (config_name task)))

  abbrev pub remove_both : Task → Job → Exec World Unit
  remove_both task created_job = do
    discard (on_cluster (c.delete_job d.namespace created_job.meta.name))
    remove_config_map task

  -- The three objects, and what is removed when the second or the third is refused.
  unfoldable pub make_secret : Task → String → Job → Exec World Secret
  make_secret task agent_token created_job =
      or_clean_up (wrap "k8s: create secret: ") (remove_both task created_job)
        (on_cluster (c.create_secret d.namespace (secret_of d task created_job agent_token)))

  unfoldable pub make_job : Task → ConfigMap → Exec World Job
  make_job task created_cm =
      or_clean_up (wrap "k8s: create job: ") (remove_config_map task)
        (on_cluster (c.create_job d.namespace (job_of d task created_cm)))

  unfoldable pub make_config_map : Task → String → Exec World ConfigMap
  make_config_map task task_data =
      on_error (wrap "k8s: create configmap: ")
        (on_cluster (c.create_config_map d.namespace (config_map_of d task task_data)))

  -- `Dispatch` behind the token and the text of the task.
  unfoldable pub make_objects : Task → String → String → Exec World Handle
  make_objects task agent_token task_data = do
    created_cm ← make_config_map task task_data
    created_job ← make_job task created_cm
    make_secret task agent_token created_job
    pure (record { runtime_name = "k8s"; external_id = job_name task })

  unfoldable pub status : Exec World (ℤ × ℤ)
  status = do
    jobs ←
        on_error (wrap "k8s: list jobs: ")
          (λ w. (c.list_jobs d.namespace "hermesmanager.io/managed=true" w.cluster, w))
    pure (pos (count_active jobs), pos max_concurrency)

module _ (c : Client) (d : Driver) (marshal : TaskJson → Result String) where
  unfoldable pub dispatch : Task → Skill → Exec World Handle
  dispatch task skill = do
    agent_token ← generate_token (wrap "k8s: generate agent token: ")
    task_data ← on_error (wrap "k8s: marshal task json: ") (lift (marshal (task_json task)))
    make_objects c d task agent_token task_data

  unfoldable pub k8s_runtime : Runtime World
  k8s_runtime = record {
    name = "k8s";
    callback_url = callback_url d;
    dispatch = dispatch;
    status = status c d;
  }
