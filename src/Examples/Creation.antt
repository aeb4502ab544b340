-- ===== src/Examples/Creation.antt =====
-- A queued create on small databases.
use docker_cloud_manager.Prelude.{◌≡◌, refl, ◌⊎◌, [], ◌∷◌, arith, zero, suc}
use docker_cloud_manager.AppErrors.{is, same}
use docker_cloud_manager.Container.{
  Status, Container, OperationKind, OperationStatus, ResourceOperation, LifecycleMessage,
}
use docker_cloud_manager.ImageRef.{parse_tag, split_colon, version_of}
use docker_cloud_manager.Container.Store.{
  get_by_id, get_operation_by_id, update_status, update_docker_id_and_status,
}
use docker_cloud_manager.Container.Queue.{claim_pending_operation, claim_found, complete_operation}
use docker_cloud_manager.Container.Resources.{get_mounts_by_container_id, join_volumes, list_images}
use docker_cloud_manager.Container.Action.{World, query, transact, docker}
use docker_cloud_manager.Container.Worker.{with_container, ensure_create_operation_running}
use docker_cloud_manager.Container.Worker.Create.{
  inspect_queued_create_volumes, resolve_queued_create_image, resolve_among,
  queued_create_runtime_spec, env_list_of,
}
use docker_cloud_manager.Container.Worker.Creation.{
  execute_queued_create, create_found, create_row, create_in_network, deferred, with_resolved,
  pull_public, with_pulled, create_with_image, create_in_engine, record_created,
}
use docker_cloud_manager.Container.Worker.Creation.{execute_queued_container_operation}
use docker_cloud_manager.Container.Worker.Settled.{IsAt, IsSettled}
use docker_cloud_manager.Container.Worker.Creation.Settled.{HasNoUnavailable}
use docker_cloud_manager.Container.Worker.Creation.Whole.{
  execute_queued_container_operation-IsSettled,
}
use docker_cloud_manager.Examples.Queue.{web, start_web, start_message, idle_db}
use docker_cloud_manager.Examples.Settings.{settings}
use docker_cloud_manager.Examples.Worker.{
  good_engine, slow_engine, slow_engine-HasForeignFaults, busy_world,
}

abbrev new_web : Container
new_web = record web { docker_id = ""; status = Status.pending; desired_status = Status.created }

abbrev create_web : ResourceOperation
create_web = record start_web { operation = OperationKind.create }

abbrev create_message : LifecycleMessage
create_message = record start_message { operation = OperationKind.create }

abbrev new_world : World
new_world = record busy_world {
  db = record idle_db { containers = new_web ∷ []; operations = create_web ∷ [] };
}

slow_engine-HasNoUnavailable : HasNoUnavailable slow_engine
unfolding is same
slow_engine-HasNoUnavailable zero e h = ground arith
slow_engine-HasNoUnavailable (suc n) e h = cc

execute_queued_container_operation-IsSettled_example :
    IsSettled 11
      (execute_queued_container_operation slow_engine settings 11 7 create_message new_world)
    ⊎ IsAt 11 OperationStatus.failed
        (execute_queued_container_operation slow_engine settings 11 7 create_message new_world).1
execute_queued_container_operation-IsSettled_example =
    execute_queued_container_operation-IsSettled slow_engine settings (λ n. refl)
      slow_engine-HasForeignFaults slow_engine-HasNoUnavailable 11 7 create_message new_world refl
      refl

-- A create that succeeds: the row has the engine's container.
create_runs :
    (execute_queued_container_operation good_engine settings 11 7 create_message
      new_world).1.db.containers
    ≡ record new_web { docker_id = "def"; status = Status.created } ∷ []
unfolding execute_queued_container_operation query get_operation_by_id execute_queued_create
    transact claim_pending_operation claim_found create_found update_status with_container get_by_id
    create_row get_mounts_by_container_id ensure_create_operation_running
    inspect_queued_create_volumes join_volumes create_in_network docker deferred
    resolve_queued_create_image resolve_among list_images parse_tag split_colon version_of
    with_resolved pull_public with_pulled create_with_image queued_create_runtime_spec env_list_of
    create_in_engine record_created update_docker_id_and_status complete_operation
create_runs = refl
