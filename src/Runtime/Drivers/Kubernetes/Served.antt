-- ===== src/Runtime/Drivers/Kubernetes/Served.antt =====
-- What the Kubernetes API promises of the objects in a namespace.
use hermes_manager.Prelude.{
  String, ◌≡◌, refl, ◌∙◌, ap₂, subst, inl, inr, true, none, some, Result, ok, err, Error,
  if◌then◌else◌, Bool-cases, eq_iff, arith,
}
use hermes_manager.World.{
  Cluster, ConfigMap, Secret, Job, Object, a_config_map, a_job, a_secret, Kind, config_map, job,
  secret, find, is_same, same_kind,
}
use hermes_manager.Runtime.Drivers.Kubernetes.{Client}

-- Every object of one state is in the other, and the reverse.
abbrev pub SameObjects : Cluster → Cluster → Type 0
SameObjects c c' = (j : Kind) (m : String) → find j m c' ≡ find j m c

-- One object has come under a name that was free.
pub record Adds (k : Kind) (n : String) (o : Object) (c c' : Cluster) : Type 0 where
  pub free : find k n c ≡ none
  pub objects :
      (j : Kind) (m : String) → find j m c' ≡ (if is_same k n j m then some o else find j m c)

-- A call that creates an object stores it with an identifier of its own under a free name, or changes
-- nothing.
pub record Creates {V : Type 0} (k : Kind) (embed : V → Object) (name_of : V → String)
    (with_uid : String → V → V) (create : V → Cluster → Result V × Cluster) : Type 0 where
  pub accepted :
      (v v' : V) (c c' : Cluster)
      → create v c ≡ (ok v', c')
      → (u : String) × (v' ≡ with_uid u v) × Adds k (name_of v) (embed v') c c'
  pub refused : (v : V) (e : Error) (c c' : Cluster) → create v c ≡ (err e, c') → c' ≡ c

-- A call that deletes an object removes it if it is there. (What it owns is collected later.)
pub record Deletes (k : Kind) (delete : String → Cluster → Result (Unit {0}) × Cluster)
    : Type 0 where
  pub removed :
      (n : String) (o : Object) (c : Cluster)
      → find k n c ≡ some o
      → (j : Kind) (m : String)
      → find j m (delete n c).1 ≡ (if is_same k n j m then none else find j m c)

abbrev pub config_map_with_uid : String → ConfigMap → ConfigMap
config_map_with_uid u v = record v { meta = record v.meta { uid = u } }

abbrev pub job_with_uid : String → Job → Job
job_with_uid u v = record v { meta = record v.meta { uid = u } }

abbrev pub secret_with_uid : String → Secret → Secret
secret_with_uid u v = record v { meta = record v.meta { uid = u } }

pub record Api (client : Client) (ns : String) : Type 0 where
  pub config_maps :
      Creates config_map a_config_map
        (λ v. v.meta.name)
        config_map_with_uid
        (client.create_config_map ns)
  pub jobs : Creates job a_job (λ v. v.meta.name) job_with_uid (client.create_job ns)
  pub secrets : Creates secret a_secret (λ v. v.meta.name) secret_with_uid (client.create_secret ns)
  pub config_map_deletes : Deletes config_map (client.delete_config_map ns)
  pub job_deletes : Deletes job (client.delete_job ns)

same_kind-eq : (k j : Kind) → same_kind k j ≡ true → k ≡ j
same_kind-eq config_map config_map h = refl
same_kind-eq config_map job h = cc
same_kind-eq config_map secret h = cc
same_kind-eq job config_map h = cc
same_kind-eq job job h = refl
same_kind-eq job secret h = cc
same_kind-eq secret config_map h = cc
same_kind-eq secret job h = cc
same_kind-eq secret secret h = refl

same_kind_self : (k : Kind) → same_kind k k ≡ true
same_kind_self config_map = refl
same_kind_self job = refl
same_kind_self secret = refl

is_same-eq :
    (k : Kind) (n : String) (j : Kind) (m : String) → is_same k n j m ≡ true → (k ≡ j) × (n ≡ m)
is_same-eq k n j m h = (same_kind-eq k j (ground arith), ground (arith, eq_iff n m))

is_same_self : (k : Kind) (n : String) → is_same k n k n ≡ true
is_same_self k n = ground (arith, same_kind_self k, eq_iff n n)

pub Adds-there :
    (k : Kind) (n : String) (o : Object) (c c' : Cluster) → Adds k n o c c' → find k n c' ≡ some o
Adds-there k n o c c' a = ground (arith, a.objects k n, is_same_self k n)

-- An object that has come and gone.
pub Adds-removed :
    {delete : String → Cluster → Result (Unit {0}) × Cluster} (k : Kind) (n : String) (o : Object)
    (c c' : Cluster)
    → Deletes k delete
    → Adds k n o c c'
    → SameObjects c (delete n c').1
Adds-removed k n o c c' d a j m =
    let gone = d.removed n o c' (Adds-there k n o c c' a) j m in
    elim (Bool-cases (is_same k n j m)) [
      | inl same ↦
          let (kinds, names) = is_same-eq k n j m same in
          let free : find j m c ≡ none =
            subst (λ (q : Kind × String). find q.0 q.1 c ≡ none) (ap₂ (λ x y. (x, y)) kinds names)
              a.free in
          ground arith
      | inr differ ↦ ground (arith, a.objects j m)
    ]

pub SameObjects-∙ : (c c' c'' : Cluster) → SameObjects c c' → SameObjects c' c'' → SameObjects c c''
SameObjects-∙ c c' c'' p q j m = q j m ∙ p j m

pub Adds-same :
    (k : Kind) (n : String) (o : Object) (c c' c'' : Cluster)
    → Adds k n o c c'
    → SameObjects c' c''
    → Adds k n o c c''
Adds-same k n o c c' c'' a same = record {
  free = a.free;
  objects = λ j m. same j m ∙ a.objects j m;
}
