-- ===== src/Runtime/Drivers/Kubernetes/Setup.antt =====
-- internal/runtime/k8s/driver.go: the options and `New`.
use Prim.Native.String.{[] as empty}
use hermes_manager.Prelude.{
  String, Option, none, some, List, [], ◌∷◌, Result, ok, err, wrap, ◌==◌, if◌then◌else◌,
}
use hermes_manager.Runtime.Drivers.Kubernetes.{Client, Driver}

-- `WithClient`, `WithNamespace`, `WithPort` and `WithImage`
abbrev pub with_client : Client → Driver → Driver
with_client c d = record d { client = some c }

abbrev pub with_namespace : String → Driver → Driver
with_namespace ns d = record d { namespace = ns }

abbrev pub with_port : String → Driver → Driver
with_port port d = record d { port = port }

abbrev pub with_image : String → Driver → Driver
with_image image d = record d { image = image }

abbrev pub env_or_default : (String → String) → String → String → String
env_or_default getenv key fallback = if getenv key == empty then fallback else getenv key

-- The loop over the options.
abbrev pub apply_options : List (Driver → Driver) → Driver → Driver
apply_options [] d = d
apply_options (o ∷ opts) d = apply_options opts (o d)

-- `New`, with the client that it works with. `in_cluster_config` and `new_for_config` are the two
-- functions of client-go.
module _ {Config : Type 0} (getenv : String → String) (in_cluster_config : Result Config)
    (new_for_config : Config → Result Client) where
  abbrev pub client_created : Driver → Result Client → Result (Client × Driver)
  client_created d (err e) = err (wrap "k8s: create client: " e)
  client_created d (ok c) = ok (c, with_client c d)

  abbrev pub client_configured : Driver → Result Config → Result (Client × Driver)
  client_configured d (err e) = err (wrap "k8s: in-cluster config: " e)
  client_configured d (ok config) = client_created d (new_for_config config)

  abbrev pub ensure_client : Driver → Option Client → Result (Client × Driver)
  ensure_client d (some c) = ok (c, d)
  ensure_client d none = client_configured d in_cluster_config

  abbrev pub default_driver : Driver
  default_driver = record {
    client = none;
    namespace = env_or_default getenv "HERMESMANAGER_NAMESPACE" "default";
    port = env_or_default getenv "HERMESMANAGER_PORT" "8080";
    image = env_or_default getenv "HERMESMANAGER_AGENT_IMAGE" "hermesmanager/demo-agent:latest";
  }

  unfoldable pub new : List (Driver → Driver) → Result (Client × Driver)
  new opts = let d = apply_options opts default_driver in ensure_client d d.client
