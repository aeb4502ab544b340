-- ===== src/Container/Worker/Creation.antt =====
-- backend/internal/core/service/container_create_async.go, ExecuteQueuedCreate: the order of its
-- calls, and what is undone where one of them fails.
pub mod Settled
pub mod Steps
pub mod Whole
use docker_cloud_manager.Prelude.{
  ℕ, Bool, true, false, not, ◌||◌, Option, none, some, List, String, if◌then◌else◌, ◌==◌,
}
use docker_cloud_manager.Prelude.Int.{pos}
use docker_cloud_manager.AppErrors.{Err}
use docker_cloud_manager.Config.{SystemConfig}
use docker_cloud_manager.Admission.{ensure_host_disk_floor_projected}
use docker_cloud_manager.Container.{
  Status, Container, OperationStatus, ResourceOperation, LifecycleMessage, VolumeMountParams, Image,
  is_container, is_create,
}
use docker_cloud_manager.Container.Store.{
  get_operation_by_id, update_status, update_docker_id_and_status,
}
use docker_cloud_manager.Container.Queue.{
  claim_pending_operation, complete_operation, requeue_operation,
}
use docker_cloud_manager.Container.Resources.{get_mounts_by_container_id}
use docker_cloud_manager.Container.Action.{
  Env, Action, return, raise, on, ◌≫◌, transact, query, docker, command, create_container,
  remove_container, ensure_user_network, image_exists, pull_image, remove_image,
  ContainerRuntimeSpec,
}
use docker_cloud_manager.Container.Worker.{
  normalize_container_runtime_error, ensure_create_operation_running, with_container,
  user_network_name, cleanup_user_network_if_unused,
}
use docker_cloud_manager.Container.Worker.Dispatch.{attempts_exhausted, execute_queued_lifecycle}
use docker_cloud_manager.Container.Worker.Create.{
  ResolvedImage, create_mismatch, attempts_error, pull_error, fail_queued_create, fail_create,
  requeue_or_fail_create, mark_image_missing, inspect_queued_create_volumes,
  resolve_queued_create_image, queued_create_runtime_spec, lift,
}
use text.Mathlib.Text.{◌==◌ as str_eq}

-- `defer func() { if err != nil { cleanup } }()` around the rest of the function
unfoldable pub deferred : Action (Unit {0}) → Action (Unit {0}) → Action (Unit {0})
deferred cleanup rest = on rest (λ e. cleanup ≫ raise e) return

module _ {F : Type 0} (env : Env) (cfg : SystemConfig F) (operation_id container_id : ℕ) where
  -- The row is given the new container, or the new container is removed.
  unfoldable pub record_created : String → Action (Unit {0})
  record_created docker_id =
      on (transact env (update_docker_id_and_status container_id docker_id Status.created))
        (λ e.
          command env (remove_container docker_id)
          ≫ fail_create env cfg operation_id container_id e)
        λ _. transact env (complete_operation operation_id OperationStatus.done none) ≫ return tt

  unfoldable pub create_in_engine : ContainerRuntimeSpec → Action (Unit {0})
  create_in_engine docker_params =
      on (docker env (create_container docker_params) env.new_docker_id)
        (λ e.
          requeue_or_fail_create env cfg operation_id container_id
            (normalize_container_runtime_error e))
        record_created

  unfoldable pub create_with_image : Container → List VolumeMountParams → String → Action (Unit {0})
  create_with_image c mounts actual_image_tag =
      on (ensure_create_operation_running env cfg operation_id) raise λ _.
        on
          (lift env cfg (
            queued_create_runtime_spec env cfg c mounts actual_image_tag
              (user_network_name env cfg c.owner_id)))
          (fail_create env cfg operation_id container_id) create_in_engine

  -- The deferred removal of a public image that was pulled for this container.
  unfoldable pub with_pulled : String → Bool → Action (Unit {0}) → Action (Unit {0})
  with_pulled actual_image_tag pulled_public_image rest =
      if pulled_public_image
      then deferred (command env (remove_image actual_image_tag)) rest
      else rest

  unfoldable pub pull_failed : Err → Action (Unit {0})
  pull_failed e = requeue_or_fail_create env cfg operation_id container_id (pull_error e)

  unfoldable pub pull_custom : Image → String → Action (Unit {0}) → Action (Unit {0})
  pull_custom image actual_image_tag rest =
      on (command env (pull_image actual_image_tag))
        (λ e.
          if env.is_not_found e
          then (mark_image_missing env cfg image.id ≫ pull_failed e)
          else pull_failed e)
        λ _. rest

  unfoldable pub pull_public : String → (Bool → Action (Unit {0})) → Action (Unit {0})
  pull_public actual_image_tag rest =
      on (docker env (image_exists actual_image_tag) env.has_image)
        (λ e.
          requeue_or_fail_create env cfg operation_id container_id
            (normalize_container_runtime_error e))
        λ there.
          if there
          then rest false
          else on
              (lift env cfg (
                ensure_host_disk_floor_projected env.free_disk cfg.host_min_free_disk_bytes
                  (pos 0)))
              (fail_create env cfg operation_id container_id)
              λ _. on (command env (pull_image actual_image_tag)) pull_failed λ _. rest true

  unfoldable pub with_resolved :
      Container → List VolumeMountParams → ResolvedImage → Action (Unit {0})
  with_resolved c mounts image =
      on (ensure_create_operation_running env cfg operation_id) raise λ _. elim image.custom_image [
        | some custom ↦
            pull_custom custom image.actual_image_tag
              (create_with_image c mounts image.actual_image_tag)
        | none ↦ pull_public image.actual_image_tag λ pulled.
            with_pulled image.actual_image_tag pulled
              (create_with_image c mounts image.actual_image_tag)
      ]

  -- With the deferred clean-up of the user's network.
  unfoldable pub create_in_network : Container → List VolumeMountParams → Action (Unit {0})
  create_in_network c mounts =
      on (command env (ensure_user_network (user_network_name env cfg c.owner_id)))
        (λ e.
          requeue_or_fail_create env cfg operation_id container_id
            (normalize_container_runtime_error e))
        λ _. deferred (cleanup_user_network_if_unused env cfg c.owner_id) (
          on (resolve_queued_create_image env cfg c) (fail_create env cfg operation_id container_id)
            (with_resolved c mounts))

  unfoldable pub create_row : Container → Action (Unit {0})
  create_row c =
      if not (str_eq c.docker_id "")
      then (transact env (complete_operation operation_id OperationStatus.done none) ≫ return tt)
      else on (query env (get_mounts_by_container_id container_id))
          (fail_create env cfg operation_id container_id)
          λ mounts. on (ensure_create_operation_running env cfg operation_id) raise λ _.
            on (inspect_queued_create_volumes env cfg mounts)
              (fail_create env cfg operation_id container_id) λ _. create_in_network c mounts

  unfoldable pub create_unclaimed : ResourceOperation → Action (Unit {0})
  create_unclaimed op =
      if attempts_exhausted env cfg op
      then fail_queued_create env cfg operation_id container_id attempts_error ≫ return tt
      else return tt

  unfoldable pub create_found : ResourceOperation × Bool → Action (Unit {0})
  create_found (op, false) = create_unclaimed op
  create_found (op, true) =
      if not (is_container op.resource_type)
        || not (is_create op.operation)
        || not (op.resource_id == container_id)
      then (transact env
            (complete_operation operation_id OperationStatus.failed (some create_mismatch))
          ≫ raise create_mismatch)
      else on (transact env (update_status container_id Status.creating))
          (λ e. transact env (requeue_operation operation_id (some e)) ≫ raise e)
          λ _. with_container env cfg operation_id container_id create_row

  unfoldable pub execute_queued_create : Action (Unit {0})
  execute_queued_create =
      on (transact env (claim_pending_operation operation_id cfg.container_create_max_attempts))
        raise create_found

-- The handler of a message: a create, or another operation.
unfoldable pub execute_queued_container_operation :
    {F : Type 0} → Env → SystemConfig F → ℕ → ℕ → LifecycleMessage → Action (Unit {0})
execute_queued_container_operation env cfg operation_id container_id msg =
    on (query env (get_operation_by_id operation_id)) raise λ op.
      if is_create op.operation
      then execute_queued_create env cfg operation_id container_id
      else execute_queued_lifecycle env cfg operation_id container_id msg
