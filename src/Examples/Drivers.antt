-- ===== src/Examples/Drivers.antt =====
-- The Kubernetes driver over a small server.
use hermes_manager.Prelude.{
  String, ◌≡◌, refl, true, false, none, Result, ok, err, error, wrap, lookup, insert, delete,
  is_absent,
}
use hermes_manager.Storage.{running, Task}
use hermes_manager.World.{World, rand_read}
use hermes_manager.Runtime.{Handle}
use hermes_manager.Api.Server.{generate_token, encode_hex, hex_digit}
use hermes_manager.Runtime.Drivers.Local.{TaskJson, task_json}
use hermes_manager.Runtime.Drivers.Kubernetes.{
  Driver, dispatch, make_objects, make_config_map, make_job, make_secret,
}
use hermes_manager.Runtime.Drivers.Kubernetes.Served.{SameObjects}
use hermes_manager.Runtime.Drivers.Kubernetes.Deployed.{
  IsDeployed, k8s_dispatch_restores, k8s_dispatch-IsDeployed,
}
use hermes_manager.Examples.Data.{echo, task_of, world_of, empty_db}
use hermes_manager.Examples.Cluster.{small_client, small_client-Api}

abbrev the_driver : Driver
the_driver = record { client = none; namespace = "default"; port = "8080"; image = "agent" }

abbrev marshal : TaskJson → Result String
marshal t = ok "{}"

abbrev t1 : Task
t1 = task_of "t1" 10 running

abbrev refused_world : World
refused_world = (dispatch (small_client false) the_driver marshal t1 echo (world_of empty_db)).1

secret_refused :
    dispatch (small_client false) the_driver marshal t1 echo (world_of empty_db)
    ≡ (err (wrap "k8s: create secret: " (error "forbidden")), refused_world)
unfolding dispatch make_objects make_config_map make_job make_secret generate_token rand_read
    encode_hex hex_digit is_absent lookup insert delete
secret_refused = refl

k8s_dispatch_restores_example : SameObjects (world_of empty_db).cluster refused_world.cluster
k8s_dispatch_restores_example =
    k8s_dispatch_restores (small_client false) the_driver marshal (small_client-Api false "default")
      t1 echo (wrap "k8s: create secret: " (error "forbidden")) (world_of empty_db) refused_world
      secret_refused

abbrev deployed_world : World
deployed_world = (dispatch (small_client true) the_driver marshal t1 echo (world_of empty_db)).1

abbrev k8s_handle : Handle
k8s_handle = record { runtime_name = "k8s"; external_id = "hermesmanager-t1" }

all_accepted :
    dispatch (small_client true) the_driver marshal t1 echo (world_of empty_db)
    ≡ (ok k8s_handle, deployed_world)
unfolding dispatch make_objects make_config_map make_job make_secret generate_token rand_read
    encode_hex hex_digit is_absent lookup insert
all_accepted = refl

k8s_dispatch-IsDeployed_example :
    (text : String) × (token : String) × (marshal (task_json t1) ≡ ok text)
    × ((generate_token (wrap "k8s: generate agent token: ") (world_of empty_db)).0 ≡ ok token)
    × IsDeployed the_driver t1 text token k8s_handle
        (world_of empty_db).cluster
        deployed_world.cluster
k8s_dispatch-IsDeployed_example =
    k8s_dispatch-IsDeployed (small_client true) the_driver marshal (small_client-Api true "default")
      t1 echo k8s_handle (world_of empty_db) deployed_world all_accepted
