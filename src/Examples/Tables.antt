-- ===== src/Examples/Tables.antt =====
-- Tables of objects, and the calls of a small Kubernetes server on them.
use mathlib.Core.Option
use hermes_manager.Prelude.{
  String, ◌≡◌, refl, sym, ap, ap₂, subst, ◌∙◌, Bool, true, false, Option, none, some, List, Result,
  ok, err, Error, error, lookup, insert, delete, is_absent, is_absent-eq-true, lookup-insert,
  lookup-delete, if◌then◌else◌, Bool-cases, inl, inr, ◌==◌,
}
use hermes_manager.World.{
  Cluster, ConfigMap, Secret, Job, Object, a_config_map, a_job, a_secret, Kind, config_map, job,
  secret, find, same_kind,
}
use hermes_manager.Runtime.Drivers.Kubernetes.Served.{Adds, Creates, Deletes}

abbrev pub taken : Error
taken = error "already exists"

map_if :
    {A B : Type 0} (f : A → B) (b : Bool) (a : A) (o : Option A)
    → Option.map f (if b then some a else o) ≡ (if b then some (f a) else Option.map f o)
map_if f true a o = refl
map_if f false a o = refl

map_unless :
    {A B : Type 0} (f : A → B) (b : Bool) (o : Option A)
    → Option.map f (if b then none else o) ≡ (if b then none else Option.map f o)
map_unless f true o = refl
map_unless f false o = refl

-- The objects of one kind, in a table of the cluster.
pub record IsTable {V : Type 0} (k : Kind) (embed : V → Object) (get : Cluster → List (String × V))
    (put : List (String × V) → Cluster → Cluster) : Type 0 where
  pub read :
      (j : Kind) (m : String) (c : Cluster)
      → same_kind k j ≡ true
      → find j m c ≡ Option.map embed (lookup m (get c))
  pub self : same_kind k k ≡ true
  pub write :
      (j : Kind) (m : String) (rows : List (String × V)) (c : Cluster)
      → find j m (put rows c)
        ≡ (if same_kind k j then Option.map embed (lookup m rows) else find j m c)

abbrev pub put_config_maps : List (String × ConfigMap) → Cluster → Cluster
put_config_maps rows c = record c { config_maps = rows }

abbrev pub put_jobs : List (String × Job) → Cluster → Cluster
put_jobs rows c = record c { jobs = rows }

abbrev pub put_secrets : List (String × Secret) → Cluster → Cluster
put_secrets rows c = record c { secrets = rows }

read_config_map :
    (j : Kind) (m : String) (c : Cluster)
    → same_kind config_map j ≡ true
    → find j m c ≡ Option.map a_config_map (lookup m c.config_maps)
unfolding find
read_config_map config_map m c h = refl
read_config_map job m c h = cc
read_config_map secret m c h = cc

write_config_map :
    (j : Kind) (m : String) (rows : List (String × ConfigMap)) (c : Cluster)
    → find j m (put_config_maps rows c)
      ≡ (if same_kind config_map j then Option.map a_config_map (lookup m rows) else find j m c)
unfolding find
write_config_map config_map m rows c = refl
write_config_map job m rows c = refl
write_config_map secret m rows c = refl

pub config_maps-IsTable : IsTable config_map a_config_map (λ c. c.config_maps) put_config_maps
config_maps-IsTable = record { read = read_config_map; self = refl; write = write_config_map }

read_job :
    (j : Kind) (m : String) (c : Cluster)
    → same_kind job j ≡ true
    → find j m c ≡ Option.map a_job (lookup m c.jobs)
unfolding find
read_job config_map m c h = cc
read_job job m c h = refl
read_job secret m c h = cc

write_job :
    (j : Kind) (m : String) (rows : List (String × Job)) (c : Cluster)
    → find j m (put_jobs rows c)
      ≡ (if same_kind job j then Option.map a_job (lookup m rows) else find j m c)
unfolding find
write_job config_map m rows c = refl
write_job job m rows c = refl
write_job secret m rows c = refl

pub jobs-IsTable : IsTable job a_job (λ c. c.jobs) put_jobs
jobs-IsTable = record { read = read_job; self = refl; write = write_job }

read_secret :
    (j : Kind) (m : String) (c : Cluster)
    → same_kind secret j ≡ true
    → find j m c ≡ Option.map a_secret (lookup m c.secrets)
unfolding find
read_secret config_map m c h = cc
read_secret job m c h = cc
read_secret secret m c h = refl

write_secret :
    (j : Kind) (m : String) (rows : List (String × Secret)) (c : Cluster)
    → find j m (put_secrets rows c)
      ≡ (if same_kind secret j then Option.map a_secret (lookup m rows) else find j m c)
unfolding find
write_secret config_map m rows c = refl
write_secret job m rows c = refl
write_secret secret m rows c = refl

pub secrets-IsTable : IsTable secret a_secret (λ c. c.secrets) put_secrets
secrets-IsTable = record { read = read_secret; self = refl; write = write_secret }

module _ {V : Type 0} (k : Kind) (embed : V → Object) (name_of : V → String)
    (with_uid : String → V → V) (get : Cluster → List (String × V))
    (put : List (String × V) → Cluster → Cluster) (u : String) (t : IsTable k embed get put) where
  abbrev pub accept : V → Cluster → Result V × Cluster
  accept v c = (ok (with_uid u v), put (insert (name_of v) (with_uid u v) (get c)) c)

  abbrev pub create : V → Cluster → Result V × Cluster
  create v c = if is_absent (name_of v) (get c) then accept v c else (err taken, c)

  Adds-inserted :
      (n : String) (v : V) (c : Cluster)
      → is_absent n (get c) ≡ true
      → Adds k n (embed v) c (put (insert n v (get c)) c)
  Adds-inserted n v c free = record {
    free = t.read k n c t.self ∙ ap (Option.map embed) (is_absent-eq-true n (get c) free);
    objects = λ j m. t.write j m (insert n v (get c)) c ∙ (elim (Bool-cases (same_kind k j)) [
      | inl same ↦ rw (same) (
          ap (Option.map embed) (lookup-insert n m v (get c))
          ∙ map_if embed (n == m) v (lookup m (get c))
          ∙ ap (λ o. if n == m then some (embed v) else o) (sym (t.read j m c same)))
      | inr differ ↦ rw (differ) refl
    ]);
  }

  create-accepted :
      (v v' : V) (c c' : Cluster)
      → create v c ≡ (ok v', c')
      → (u : String) × (v' ≡ with_uid u v) × Adds k (name_of v) (embed v') c c'
  create-accepted v v' c c' h = elim (Bool-cases (is_absent (name_of v) (get c))) [
    | inl free ↦
        let done : accept v c ≡ (ok v', c') = rw (free) at h in
        let e : with_uid u v ≡ v' = cc in
        let e' : put (insert (name_of v) (with_uid u v) (get c)) c ≡ c' = cc in
        (
          u,
          sym e,
          subst (λ (q : V × Cluster). Adds k (name_of v) (embed q.0) c q.1)
              (ap₂ (λ x y. (x, y)) e e') (Adds-inserted (name_of v) (with_uid u v) c free),
        )
    | inr there ↦ cc (rw (there) at h)
  ]

  pub create-Creates : Creates k embed name_of with_uid create
  create-Creates = record {
    accepted = create-accepted;
    refused = λ v e c c' h. elim (Bool-cases (is_absent (name_of v) (get c))) [
      | inl free ↦ cc (rw (free) at h)
      | inr there ↦ cc (rw (there) at h)
    ];
  }

  pub deletes : Deletes k (λ n c. (ok tt, put (delete n (get c)) c))
  deletes = record {
    removed = λ n o c there j m.
        t.write j m (delete n (get c)) c ∙ (elim (Bool-cases (same_kind k j)) [
          | inl same ↦ rw (same) (
              ap (Option.map embed) (lookup-delete n m (get c))
              ∙ map_unless embed (n == m) (lookup m (get c))
              ∙ ap (λ o. if n == m then none else o) (sym (t.read j m c same)))
          | inr differ ↦ rw (differ) refl
        ]);
  }
