-- ===== src/Runtime/Drivers/Docker.antt =====
-- internal/runtime/docker/docker.go, a stub; `getenv` is `os.Getenv`.
use Prim.Native.String
use hermes_manager.Prelude.{String, ◌==◌, raise, pure, Exec, if◌then◌else◌}
use hermes_manager.Storage.{Task, Skill, ℤ, pos}
use hermes_manager.Runtime.{Runtime, Handle, err_runtime_unavailable, with_detail}

abbrev pub docker_port : (String → String) → String
docker_port getenv =
    if getenv "HERMESMANAGER_PORT" == "" then "8080" else getenv "HERMESMANAGER_PORT"

abbrev pub docker_callback_url : (String → String) → String
docker_callback_url getenv =
    String.◌++◌ "http://host.docker.internal:" (String.◌++◌ (docker_port getenv) "/v1/events")

module _ {W : Type 0} (getenv : String → String) where
  unfoldable pub docker_dispatch : Task → Skill → Exec W Handle
  docker_dispatch task skill =
      if getenv "DOCKER_HOST" == ""
      then raise (with_detail err_runtime_unavailable "DOCKER_HOST not set")
      else raise (with_detail err_runtime_unavailable "docker dispatch not yet implemented")

  unfoldable pub docker_status : Exec W (ℤ × ℤ)
  docker_status = pure (pos 0, pos 5)

  unfoldable pub docker_runtime : Runtime W
  docker_runtime = record {
    name = "docker";
    callback_url = docker_callback_url getenv;
    dispatch = docker_dispatch;
    status = docker_status;
  }
