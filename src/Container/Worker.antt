-- ===== src/Container/Worker.antt =====
-- backend/internal/core/service/container_create_async.go and container_state.go: the worker that
-- takes a message of the container queue and runs the operation that it names. The refresh of a
-- project's status afterwards, and what is only logged, are left out.
pub mod Settled
pub mod Expose
pub mod Dispatch
pub mod Create
pub mod Creation
use docker_cloud_manager.Prelude.{
  ℕ, ◌+◌, ◌*◌, ◌≡◌, Bool, true, false, not, ◌&&◌, ◌||◌, Option, none, some, List, [], ◌∷◌, String,
  any, if◌then◌else◌, ◌==◌,
}
use docker_cloud_manager.Prelude.Int.{ℤ, pos, ltb_ℤ, leb_ℤ, add64, mul64}
use docker_cloud_manager.AppErrors.{
  Err, sentinel, new, wrap, errorf, foreign, ◌⧺◌, is, sentinel_text, conflict, bad_request, timeout,
  unavailable, canceled, deadline_exceeded, forbidden, not_found, already_exists, limit_exceeded,
}
use docker_cloud_manager.Result.{Result, ok, err}
use docker_cloud_manager.Config.{SystemConfig}
use docker_cloud_manager.Container.{
  Status, Container, OperationKind, OperationStatus, ResourceOperation, LifecycleMessage, Db,
  is_pending, is_running, is_container,
}
use docker_cloud_manager.Container.Store.{
  Tx, get_by_id, get_operation_by_id, update_status, update_status_and_ttl_deadline,
  mark_status_error, delete_container, or_not_found,
}
use docker_cloud_manager.Container.Queue.{
  claim_pending_operation, complete_operation, requeue_operation,
}
use docker_cloud_manager.Container.Action.{
  Env, World, Action, return, raise, on, ◌≫◌, transact, query, command, request_rebalance,
  DockerCall, start_container, stop_container, remove_container, remove_network,
}
use text.Mathlib.Text.{◌==◌ as str_eq}

-- normalizeContainerRuntimeError, of an error that is not nil
unfoldable pub normalize_container_runtime_error : Err → Err
normalize_container_runtime_error e =
    if is e canceled || is e deadline_exceeded
    then wrap (sentinel timeout) (sentinel_text timeout) e
    else e

abbrev pub or_resource : String → String
or_resource resource = if str_eq resource "" then "resource" else resource

abbrev pub resource_unavailable_error : String → Err
resource_unavailable_error resource =
    new (sentinel conflict) (or_resource resource ⧺ " is missing in Docker and can only be deleted")

abbrev pub resource_missing_error : String → Err
resource_missing_error resource =
    foreign (or_resource resource ⧺ " is missing in Docker; delete it")

-- The status that a failed operation gives back to the container.
unfoldable pub restored : Status → Status
restored Status.unset = Status.error
restored Status.pending = Status.error
restored Status.creating = Status.error
restored Status.starting = Status.error
restored Status.stopping = Status.error
restored Status.exposing = Status.error
restored Status.deleting = Status.error
restored previous = previous

-- backend/internal/core/infrastructure/rabbitmq/container_consumer.go: an error after which the
-- message is not delivered again.
unfoldable pub is_permanent_container_queue_error : Err → Bool
is_permanent_container_queue_error e =
    is e bad_request
    || is e forbidden
    || is e not_found
    || is e already_exists
    || is e conflict
    || is e limit_exceeded

abbrev pub owned_by : ℕ → Container → Bool
owned_by owner_id c = c.owner_id == owner_id

module _ {F : Type 0} (env : Env) (cfg : SystemConfig F) where
  unfoldable pub mark_container_error : ℕ → Status → Err → Action (Unit {0})
  mark_container_error id status cause =
      transact env (mark_status_error id status (some (normalize_container_runtime_error cause)))

  unfoldable pub fail_queued_lifecycle : ℕ → ℕ → Status → Err → Action (Unit {0})
  fail_queued_lifecycle operation_id container_id previous_status cause =
      let shown = some (normalize_container_runtime_error cause) in
      transact env (mark_status_error container_id (restored previous_status) shown)
      ≫ transact env (complete_operation operation_id OperationStatus.failed shown)

  unfoldable pub ensure_create_operation_running : ℕ → Action (Unit {0})
  ensure_create_operation_running operation_id =
      on (query env (get_operation_by_id operation_id)) raise λ op.
        if is_running op.status
        then return tt
        else raise (new (sentinel conflict) "container create operation is no longer active")

  requeued : Result (Unit {0}) × World → Result Bool × World
  requeued (ok done, w) = (ok true, w)
  requeued (err e, w) = (ok false, w)

  unfoldable pub requeue_queued_create_if_retryable : ℕ → Err → Action Bool
  unfolding requeued
  requeue_queued_create_if_retryable operation_id cause =
      if not (is cause timeout) && not (is cause unavailable) then return false else λ w.
      requeued (transact env (requeue_operation operation_id (some cause)) w)

  -- `if s.requeueQueuedCreateIfRetryable(…) { return err }; s.failQueuedLifecycle(…); return err`
  unfoldable pub requeue_or_fail : ℕ → ℕ → Status → Err → Action (Unit {0})
  requeue_or_fail operation_id container_id previous_status e =
      on (requeue_queued_create_if_retryable operation_id e) raise λ again.
        if again
        then raise e
        else fail_queued_lifecycle operation_id container_id previous_status e ≫ raise e

  -- What start, stop and expose do when the engine fails.
  unfoldable pub engine_failed : ℕ → ℕ → Status → Err → Action (Unit {0})
  engine_failed operation_id container_id previous_status e =
      if env.is_not_found e
      then mark_container_error container_id Status.missing (resource_missing_error "container")
        ≫ transact env (complete_operation operation_id OperationStatus.failed (some e))
        ≫ raise (resource_unavailable_error "container")
      else requeue_or_fail operation_id container_id previous_status
          (normalize_container_runtime_error e)

  -- The container of the message; where it cannot be read the operation fails.
  unfoldable pub with_container : ℕ → ℕ → (Container → Action (Unit {0})) → Action (Unit {0})
  with_container operation_id container_id next =
      on (query env (get_by_id container_id))
        (λ e.
          transact env (complete_operation operation_id OperationStatus.failed (some e)) ≫ raise e)
        next

  unfoldable pub fail_with : ℕ → ℕ → Status → Err → Action (Unit {0})
  fail_with operation_id container_id previous_status e =
      fail_queued_lifecycle operation_id container_id previous_status e ≫ raise e

  -- time.Now().Add(hours), where a time to live is set; hours are nanoseconds.
  unfoldable pub ttl_deadline : Option ℤ
  ttl_deadline =
      if ltb_ℤ (pos 0) cfg.container_ttl_hours
      then some (add64 env.now (mul64 cfg.container_ttl_hours (pos 3_600_000_000_000)))
      else none

  unfoldable pub execute_queued_start : ResourceOperation → ℕ → LifecycleMessage → Action (Unit {0})
  unfolding fail_with
  execute_queued_start op container_id msg = with_container op.id container_id λ c.
      if str_eq c.docker_id ""
      then fail_with op.id container_id msg.previous_status (resource_unavailable_error "container")
      else on (ensure_create_operation_running op.id) raise λ _.
        on (command env (start_container c.docker_id))
          (engine_failed op.id container_id msg.previous_status)
          λ _.
            on
              (transact env
                (update_status_and_ttl_deadline container_id Status.running ttl_deadline))
              (fail_with op.id container_id msg.previous_status)
              λ _.
                transact env (complete_operation op.id OperationStatus.done none)
                ≫ request_rebalance

  unfoldable pub execute_queued_stop : ResourceOperation → ℕ → LifecycleMessage → Action (Unit {0})
  unfolding fail_with
  execute_queued_stop op container_id msg = with_container op.id container_id λ c.
      if str_eq c.docker_id ""
      then fail_with op.id container_id msg.previous_status (resource_unavailable_error "container")
      else on (ensure_create_operation_running op.id) raise λ _.
        on (command env (stop_container c.docker_id cfg.container_stop_timeout))
          (engine_failed op.id container_id msg.previous_status)
          λ _.
            on (transact env (update_status container_id Status.exited))
              (fail_with op.id container_id msg.previous_status)
              λ _.
                transact env (complete_operation op.id OperationStatus.done none)
                ≫ request_rebalance

  abbrev pub user_network_name : ℕ → String
  user_network_name owner_id = "net_user_" ⧺ env.uuid_string owner_id

  -- CleanupUserNetworkIfUnused; whoever calls it drops its error.
  unfoldable pub cleanup_user_network_if_unused : ℕ → Action (Unit {0})
  cleanup_user_network_if_unused owner_id =
      on (query env (λ db. ok (any (owned_by owner_id) db.containers)))
        (λ e. raise (errorf "failed to count user containers: " e ""))
        λ used.
          if used
          then return tt
          else on (command env (remove_network owner_id))
              (λ e. raise (
                errorf ("failed to remove user network " ⧺ user_network_name owner_id ⧺ ": ") e ""))
              return

  -- `err != nil && !isDockerNotFound(err)`
  removal_failed :
      ResourceOperation → ℕ → LifecycleMessage → Action (Unit {0}) → Err → Action (Unit {0})
  removal_failed op container_id msg next e =
      if env.is_not_found e
      then next
      else requeue_or_fail op.id container_id msg.previous_status
          (normalize_container_runtime_error e)

  -- The part of executeQueuedDelete behind the removal of the engine's container.
  unfoldable pub delete_row : ResourceOperation → ℕ → LifecycleMessage → ℕ → Action (Unit {0})
  unfolding fail_with
  delete_row op container_id msg owner_id =
      on (transact env (delete_container container_id))
        (fail_with op.id container_id msg.previous_status)
        λ _.
          transact env (complete_operation op.id OperationStatus.done none)
          ≫ cleanup_user_network_if_unused owner_id
          ≫ return tt

  unfoldable pub execute_queued_delete :
      ResourceOperation → ℕ → LifecycleMessage → Action (Unit {0})
  unfolding removal_failed
  execute_queued_delete op container_id msg = with_container op.id container_id λ c.
      on (ensure_create_operation_running op.id) raise λ _.
        let rest = delete_row op container_id msg c.owner_id in
        if str_eq c.docker_id ""
        then rest
        else on (command env (remove_container c.docker_id))
            (removal_failed op container_id msg rest) (λ _. rest)
