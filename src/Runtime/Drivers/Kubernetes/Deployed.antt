-- ===== src/Runtime/Drivers/Kubernetes/Deployed.antt =====
-- `Dispatch` of the Kubernetes driver as a whole: what it leaves when it fails, and what it has made
-- when it returns a handle.
use Prim.Native.String
use hermes_manager.Prelude.{
  String, ◌≡◌, ◌∙◌, sym, ap, subst, inl, inr, Bool, true, false, none, some, [], ◌∷◌, Result, ok,
  err, Exec, Error, wrap, lift, on_error, on_error-eq-ok, on_error-eq-err, >>=-eq-ok, >>=-eq-err,
  if◌then◌else◌,
}
use hermes_manager.Storage.{Task, Skill, pos}
use hermes_manager.World.{
  World, Cluster, ConfigMap, Secret, Job, a_config_map, a_job, a_secret, Kind, config_map, job,
  secret, find, is_same, value, secret_key_ref,
}
use hermes_manager.Runtime.{Handle}
use hermes_manager.Runtime.Drivers.Local.{TaskJson, task_json}
use hermes_manager.Api.Server.{generate_token}
use hermes_manager.Runtime.Drivers.Kubernetes.{
  Client, Driver, job_name, config_name, token_name, make_secret, make_job, make_config_map,
  make_objects, dispatch,
}
use hermes_manager.Runtime.Drivers.Kubernetes.Served.{Api, SameObjects, SameObjects-∙, Adds-there}
use hermes_manager.Runtime.Drivers.Kubernetes.Cleanup.{
  generate_token-cluster, make_config_map-eq-ok, make_config_map-eq-err, make_job-eq-ok,
  make_job-eq-err, make_secret-eq-ok, make_secret-eq-err,
}

-- What a dispatch that returned a handle has put into the namespace.
pub record IsDeployed (d : Driver) (task : Task) (text token : String) (handle : Handle)
    (c c' : Cluster) : Type 0 where
  pub config_named : String
  pub secret_named : String
  pub the_config : ConfigMap
  pub the_job : Job
  pub the_secret : Secret
  pub same_handle :
      handle ≡ record { runtime_name = "k8s"; external_id = String.◌++◌ "hermesmanager-" task.id }
  pub fresh : find job handle.external_id c ≡ none
  pub config_there : find config_map config_named c' ≡ some (a_config_map the_config)
  pub job_there : find job handle.external_id c' ≡ some (a_job the_job)
  pub secret_there : find secret secret_named c' ≡ some (a_secret the_secret)
  pub unowned : the_config.meta.owner_references ≡ []
  pub config_text : the_config.contents ≡ ("task.json", text) ∷ []
  pub mounted : the_job.spec.volumes ≡ ("task-config", config_named) ∷ []
  pub containers :
      the_job.spec.containers
      ≡ record {
        name = "agent";
        image = d.image;
        env =
            ("HERMESMANAGER_TASK_ID", value task.id)
            ∷ (
              "HERMESMANAGER_CALLBACK_URL",
              value (
                  String.◌++◌ "http://hermesmanager." (
                    String.◌++◌ d.namespace
                      (String.◌++◌ ".svc.cluster.local:" (String.◌++◌ d.port "/v1/events")))),
            )
            ∷ ("HERMESMANAGER_AGENT_TOKEN", secret_key_ref secret_named "token")
            ∷ [];
        volume_mounts =
            record { name = "task-config"; mount_path = "/etc/hermesmanager"; read_only = true }
            ∷ [];
      }
        ∷ []
  pub restarts : the_job.spec.restart_policy ≡ "Never"
  pub retries : the_job.spec.backoff_limit ≡ pos 0
  pub token_text : the_secret.string_data ≡ ("token", token) ∷ []
  pub owned :
      the_secret.meta.owner_references
      ≡ record {
        api_version = "batch/v1";
        kind = "Job";
        name = the_job.meta.name;
        uid = the_job.meta.uid;
        controller = true;
      }
        ∷ []
  pub job_called : the_job.meta.name ≡ handle.external_id
  pub others :
      (j : Kind) (m : String)
      → is_same config_map config_named j m ≡ false
      → is_same job handle.external_id j m ≡ false
      → is_same secret secret_named j m ≡ false
      → find j m c' ≡ find j m c

module _ (c : Client) (d : Driver) (api : Api c d.namespace) (task : Task) where
  make_objects_restores :
      (token text : String) (e : Error) (w w' : World)
      → make_objects c d task token text w ≡ (err e, w')
      → SameObjects w.cluster w'.cluster
  unfolding make_objects
  make_objects_restores token text e w w' h =
      elim (>>=-eq-err (make_config_map c d task text) _ w e w' h) [
        | inl refused ↦ make_config_map-eq-err c d api task text e w w' refused
        | inr (cm, w₁, made, h₁) ↦
            let (u₁, cm-is, added) = make_config_map-eq-ok c d api task text cm w w₁ made in
            elim (>>=-eq-err (make_job c d task cm) _ w₁ e w' h₁) [
              | inl refused ↦ make_job-eq-err c d api task cm e w w₁ w' added refused
              | inr (j, w₂, made₂, h₂) ↦
                  let (u₂, j-is, added₂) = make_job-eq-ok c d api task cm j w₁ w₂ made₂ in
                  elim (>>=-eq-err (make_secret c d task token j) _ w₂ e w' h₂) [
                    | inl refused ↦
                        make_secret-eq-err c d api task token cm j e w w₁ w₂ w'
                          (ap (λ (q : Job). q.meta.name) j-is) added added₂ refused
                    | inr (s, w₃, made₃, h₃) ↦ cc
                  ]
            ]
      ]

  make_objects-IsDeployed :
      (token text : String) (handle : Handle) (w w' : World)
      → make_objects c d task token text w ≡ (ok handle, w')
      → IsDeployed d task text token handle w.cluster w'.cluster
  unfolding make_objects
  make_objects-IsDeployed token text handle w w' h =
      let (cm, w₁, made, h₁) = >>=-eq-ok (make_config_map c d task text) _ w handle w' h in
      let (u₁, cm-is, added) = make_config_map-eq-ok c d api task text cm w w₁ made in
      let (j, w₂, made₂, h₂) = >>=-eq-ok (make_job c d task cm) _ w₁ handle w' h₁ in
      let (u₂, j-is, added₂) = make_job-eq-ok c d api task cm j w₁ w₂ made₂ in
      let (s, w₃, made₃, h₃) = >>=-eq-ok (make_secret c d task token j) _ w₂ handle w' h₂ in
      let (u₃, s-is, added₃) = make_secret-eq-ok c d api task token j s w₂ w₃ made₃ in
      let last : w₃ ≡ w' = ap (λ (q : Result Handle × World). q.1) h₃ in
      let same_handle : handle ≡ record { runtime_name = "k8s"; external_id = job_name task } =
        cc in
      let cm-there =
        Adds-there config_map (config_name task) (a_config_map cm) w.cluster w₁.cluster added in
      let j-there = Adds-there job (job_name task) (a_job j) w₁.cluster w₂.cluster added₂ in
      let s-there = Adds-there secret (token_name task) (a_secret s) w₂.cluster w₃.cluster added₃ in
      record {
        config_named = config_name task;
        secret_named = token_name task;
        job_called =
            ap (λ (q : Job). q.meta.name) j-is
            ∙ sym (ap (λ (k : Handle). k.external_id) same_handle);
        the_config = cm;
        the_job = j;
        the_secret = s;
        same_handle = same_handle;
        fresh =
            ap (λ (k : Handle). find job k.external_id w.cluster) same_handle
            ∙ sym (added.objects job (job_name task))
            ∙ added₂.free;
        config_there =
            ap (λ (v : World). find config_map (config_name task) v.cluster) (sym last)
            ∙ added₃.objects config_map (config_name task)
            ∙ added₂.objects config_map (config_name task)
            ∙ cm-there;
        job_there =
            ap (λ (k : Handle). find job k.external_id w'.cluster) same_handle
            ∙ ap (λ (v : World). find job (job_name task) v.cluster) (sym last)
            ∙ added₃.objects job (job_name task)
            ∙ j-there;
        secret_there =
            ap (λ (v : World). find secret (token_name task) v.cluster) (sym last) ∙ s-there;
        unowned = ap (λ (q : ConfigMap). q.meta.owner_references) cm-is;
        config_text = ap (λ (q : ConfigMap). q.contents) cm-is;
        mounted =
            ap (λ (q : Job). q.spec.volumes) j-is
            ∙ ap (λ (q : ConfigMap). ("task-config", q.meta.name) ∷ []) cm-is;
        containers = ap (λ (q : Job). q.spec.containers) j-is;
        restarts = ap (λ (q : Job). q.spec.restart_policy) j-is;
        retries = ap (λ (q : Job). q.spec.backoff_limit) j-is;
        token_text = ap (λ (q : Secret). q.string_data) s-is;
        owned = ap (λ (q : Secret). q.meta.owner_references) s-is;
        others = λ k m no_config no_job no_secret.
            ap (λ (v : World). find k m v.cluster) (sym last)
            ∙ added₃.objects k m
            ∙ ap (λ (b : Bool). if b then some (a_secret s) else find k m w₂.cluster) no_secret
            ∙ added₂.objects k m
            ∙ ap (λ (b : Bool). if b then some (a_job j) else find k m w₁.cluster)
                (ap (λ (h : Handle). is_same job h.external_id k m) (sym same_handle) ∙ no_job)
            ∙ added.objects k m
            ∙ ap (λ (b : Bool). if b then some (a_config_map cm) else find k m w.cluster) no_config;
      }

module _ (c : Client) (d : Driver) (marshal : TaskJson → Result String) (api : Api c d.namespace)
    (task : Task) (skill : Skill) where
  token_made :
      (w v : World) (r : Result String)
      → generate_token (wrap "k8s: generate agent token: ") w ≡ (r, v)
      → SameObjects w.cluster v.cluster
  token_made w v r h = λ j m. ap (find j m) (
      ap (λ (q : Result String × World). q.1.cluster) (sym h)
      ∙ generate_token-cluster (wrap "k8s: generate agent token: ") w)

  -- A `Dispatch` that returns an error leaves every object of the namespace as it was, whichever of its
  -- five steps fails and whatever objects are there before, over a Kubernetes API that stores an
  -- accepted object under a free name, changes nothing when it refuses one, and deletes objects that
  -- are there.
  pub k8s_dispatch_restores :
      (e : Error) (w w' : World)
      → dispatch c d marshal task skill w ≡ (err e, w')
      → SameObjects w.cluster w'.cluster
  unfolding dispatch
  k8s_dispatch_restores e w w' h =
      let made_token = generate_token (wrap "k8s: generate agent token: ") in
      let marshalled : Exec World String =
        on_error (wrap "k8s: marshal task json: ") (lift (marshal (task_json task))) in
      elim (>>=-eq-err made_token _ w e w' h) [
        | inl no_token ↦ token_made w w' (err e) no_token
        | inr (token, v, made, h₁) ↦ elim (>>=-eq-err marshalled _ v e w' h₁) [
          | inl no_text ↦
              let (cause, failed) =
                on_error-eq-err (wrap "k8s: marshal task json: ") (lift (marshal (task_json task)))
                  v e w' no_text in
              let same : v ≡ w' = ap (λ (q : Result String × World). q.1) failed in
              subst (λ (x : World). SameObjects w.cluster x.cluster) same
                (token_made w v (ok token) made)
          | inr (text, v₂, got, h₂) ↦
              let got_text =
                on_error-eq-ok (wrap "k8s: marshal task json: ") (lift (marshal (task_json task))) v
                  text v₂ got in
              let same : v ≡ v₂ = ap (λ (q : Result String × World). q.1) got_text in
              SameObjects-∙ w.cluster v₂.cluster w'.cluster
                (subst (λ (x : World). SameObjects w.cluster x.cluster) same
                  (token_made w v (ok token) made))
                (make_objects_restores c d api task token text e v₂ w' h₂)
        ]
      ]

  -- A `Dispatch` that returns a handle names the job "hermesmanager-" and the task's identifier, found
  -- that name free, and has stored three objects: a config map with the text of the task, which nothing
  -- owns; that job, which is never retried, with one container of the driver's image, which is told the task's identifier, the
  -- URL of the manager's events and the token of the secret, and has the config map mounted read-only
  -- at /etc/hermesmanager; and a secret with the token that was drawn, owned by the job by its name and
  -- uid. Every other object is as it was. (Over a Kubernetes API that stores an accepted object under a free name.)
  pub k8s_dispatch-IsDeployed :
      (handle : Handle) (w w' : World)
      → dispatch c d marshal task skill w ≡ (ok handle, w')
      → (text : String) × (token : String) × (marshal (record {
        task_id = task.id;
        skill = task.skill_name;
        parameters = task.parameters;
        policy_context = task.policy_context;
        deadline_seconds = task.deadline_secs;
      })
          ≡ ok text)
        × ((generate_token (wrap "k8s: generate agent token: ") w).0 ≡ ok token)
        × IsDeployed d task text token handle w.cluster w'.cluster
  unfolding dispatch
  k8s_dispatch-IsDeployed handle w w' h =
      let made_token = generate_token (wrap "k8s: generate agent token: ") in
      let marshalled : Exec World String =
        on_error (wrap "k8s: marshal task json: ") (lift (marshal (task_json task))) in
      let (token, v, made, h₁) = >>=-eq-ok made_token _ w handle w' h in
      let (text, v₂, got, h₂) = >>=-eq-ok marshalled _ v handle w' h₁ in
      let got_text =
        on_error-eq-ok (wrap "k8s: marshal task json: ") (lift (marshal (task_json task))) v text v₂
          got in
      let same : w.cluster ≡ v₂.cluster =
        sym (generate_token-cluster (wrap "k8s: generate agent token: ") w)
        ∙ ap (λ (q : Result String × World). q.1.cluster) made
        ∙ ap (λ (q : Result String × World). q.1.cluster) got_text in
      (
        text,
        token,
        ap (λ (q : Result String × World). q.0) got_text,
        ap (λ (q : Result String × World). q.0) made,
        subst (λ (k : Cluster). IsDeployed d task text token handle k w'.cluster) (sym same)
            (make_objects-IsDeployed c d api task token text handle v₂ w' h₂),
      )
