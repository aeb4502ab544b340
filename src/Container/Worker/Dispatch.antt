-- ===== src/Container/Worker/Dispatch.antt =====
-- backend/internal/core/service/container_create_async.go, executeQueuedLifecycle: an operation is
-- claimed and handed to its handler.
use docker_cloud_manager.Prelude.{ℕ, Bool, true, false, not, ◌&&◌, ◌||◌, some, if◌then◌else◌, ◌==◌}
use docker_cloud_manager.Prelude.Int.{pos, ltb_ℤ, leb_ℤ}
use docker_cloud_manager.AppErrors.{Err, new, sentinel, bad_request, timeout}
use docker_cloud_manager.Config.{SystemConfig}
use docker_cloud_manager.Container.{
  OperationKind, OperationStatus, ResourceOperation, LifecycleMessage, is_pending, is_container,
}
use docker_cloud_manager.Container.Queue.{claim_pending_operation, complete_operation}
use docker_cloud_manager.Container.Action.{Env, Action, return, raise, on, ◌≫◌, transact}
use docker_cloud_manager.Container.Worker.{
  fail_queued_lifecycle, fail_with, execute_queued_start, execute_queued_stop,
  execute_queued_delete,
}
use docker_cloud_manager.Container.Worker.Expose.{execute_queued_expose}

abbrev pub mismatch : Err
mismatch = new (sentinel bad_request) "container lifecycle message does not match operation"

module _ {F : Type 0} (env : Env) (cfg : SystemConfig F) where
  -- The switch on the claimed operation.
  unfoldable pub execute_claimed :
      OperationKind → ResourceOperation → ℕ → LifecycleMessage → Action (Unit {0})
  execute_claimed OperationKind.start op container_id msg =
      execute_queued_start env cfg op container_id msg
  execute_claimed OperationKind.stop op container_id msg =
      execute_queued_stop env cfg op container_id msg
  execute_claimed OperationKind.delete op container_id msg =
      execute_queued_delete env cfg op container_id msg
  execute_claimed OperationKind.expose op container_id msg =
      execute_queued_expose env cfg op container_id msg
  execute_claimed _ op container_id msg =
      fail_with env cfg op.id container_id msg.previous_status
        (new (sentinel bad_request) "unsupported container lifecycle operation")

  abbrev pub attempts_exhausted : ResourceOperation → Bool
  attempts_exhausted op =
      is_pending op.status
      && ltb_ℤ (pos 0) cfg.container_create_max_attempts
      && leb_ℤ cfg.container_create_max_attempts (pos op.attempts)

  unfoldable pub execute_unclaimed : ResourceOperation → ℕ → LifecycleMessage → Action (Unit {0})
  execute_unclaimed op container_id msg =
      if attempts_exhausted op
      then fail_queued_lifecycle env cfg op.id container_id msg.previous_status
          (new (sentinel timeout) "container lifecycle attempts exhausted")
        ≫ return tt
      else return tt

  unfoldable pub execute_found : ℕ → LifecycleMessage → ResourceOperation × Bool → Action (Unit {0})
  execute_found container_id msg (op, false) = execute_unclaimed op container_id msg
  execute_found container_id msg (op, true) =
      if not (is_container op.resource_type) || not (op.resource_id == container_id)
      then (transact env (complete_operation op.id OperationStatus.failed (some mismatch))
          ≫ raise mismatch)
      else execute_claimed op.operation op container_id msg

  unfoldable pub execute_queued_lifecycle : ℕ → ℕ → LifecycleMessage → Action (Unit {0})
  execute_queued_lifecycle operation_id container_id msg =
      on (transact env (claim_pending_operation operation_id cfg.container_create_max_attempts))
        raise (execute_found container_id msg)
