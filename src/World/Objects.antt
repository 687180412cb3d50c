-- ===== src/World/Objects.antt =====
-- The objects that internal/runtime/k8s keeps in its Kubernetes namespace, each kind by its name, with
-- the fields that the driver sets or reads. The server sets `uid` and `active`.
use hermes_manager.Prelude.{String, Bool, Option, List, lookup, ◌==◌, ◌&&◌, false, true}
use mathlib.Core.Option
use hermes_manager.Storage.{ℤ}

pub record OwnerReference : Type 0 where
  pub api_version : String
  pub kind : String
  pub name : String
  pub uid : String
  pub controller : Bool

pub record ObjectMeta : Type 0 where
  pub name : String
  pub namespace : String
  pub labels : List (String × String)
  pub owner_references : List OwnerReference
  pub uid : String

pub record ConfigMap : Type 0 where
  pub meta : ObjectMeta
  pub contents : List (String × String)

pub record Secret : Type 0 where
  pub meta : ObjectMeta
  pub string_data : List (String × String)

-- The value of an environment variable: its text, or a secret's name and key.
pub data EnvValue : Type 0 where
  value : String → EnvValue
  secret_key_ref : String → String → EnvValue

pub record VolumeMount : Type 0 where
  pub name : String
  pub mount_path : String
  pub read_only : Bool

pub record Container : Type 0 where
  pub name : String
  pub image : String
  pub env : List (String × EnvValue)
  pub volume_mounts : List VolumeMount

pub record JobSpec : Type 0 where
  pub backoff_limit : ℤ
  pub labels : List (String × String)
  pub restart_policy : String
  pub containers : List Container
  -- The volumes by name, each with the name of its config map.
  pub volumes : List (String × String)

pub record Job : Type 0 where
  pub meta : ObjectMeta
  pub spec : JobSpec
  -- `Status.Active`
  pub active : ℤ

pub record Cluster : Type 0 where
  pub config_maps : List (String × ConfigMap)
  pub jobs : List (String × Job)
  pub secrets : List (String × Secret)

pub data Object : Type 0 where
  a_config_map : ConfigMap → Object
  a_job : Job → Object
  a_secret : Secret → Object

pub data Kind : Type 0 where
  config_map job secret : Kind

-- The object of a kind and a name.
unfoldable pub find : Kind → String → Cluster → Option Object
find config_map name c = Option.map a_config_map (lookup name c.config_maps)
find job name c = Option.map a_job (lookup name c.jobs)
find secret name c = Option.map a_secret (lookup name c.secrets)

abbrev pub same_kind : Kind → Kind → Bool
same_kind config_map config_map = true
same_kind job job = true
same_kind secret secret = true
same_kind _ _ = false

-- Two names of objects are one.
abbrev pub is_same : Kind → String → Kind → String → Bool
is_same k n j m = same_kind k j && n == m
