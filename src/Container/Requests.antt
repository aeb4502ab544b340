-- ===== src/Container/Requests.antt =====
-- backend/internal/core/service/container.go and container_query.go: the requests to start, stop
-- and delete a container, which check the scope of the request and put an operation into the
-- queue (queueContainerOperation of container_state.go). New ids are an argument.
pub mod Outcome
pub mod Queued
pub mod Checked
pub mod Delivered
use docker_cloud_manager.Prelude.{
  ℕ, ◌≡◌, Bool, true, false, not, ◌&&◌, ◌||◌, Option, none, some, List, [], ◌∷◌, String,
  if◌then◌else◌,
}
use docker_cloud_manager.Prelude.Int.{ℤ, pos, leb_ℤ}
use docker_cloud_manager.AppErrors.{Err, new, errorf, sentinel, conflict, bad_request}
use docker_cloud_manager.Result.{Result, ok, err}
use docker_cloud_manager.Config.{SystemConfig}
use docker_cloud_manager.AccessScope.{Scope, require_owner_access}
use docker_cloud_manager.Admission.{
  Floats, Readings, check_user_quota, check_user_cpu_quota, check_host_capacity,
  check_host_cpu_capacity, ensure_disk_quota_available, ensure_host_disk_floor_projected,
}
use docker_cloud_manager.Container.{
  Status, Container, container, OperationKind, OperationStatus, OutboxStatus, ResourceOperation,
  LifecycleMessage, ContainerLifecycleOutbox, Db,
}
use docker_cloud_manager.Container.Store.{get_by_id, has_active_operation}
use docker_cloud_manager.Container.Queue.{
  queue_container_operation, cancel_active_create_and_delete_container,
}
use docker_cloud_manager.Container.Action.{
  Env, World, Action, return, raise, on, ◌≫◌, transact, query,
}
use docker_cloud_manager.Container.Worker.{
  resource_unavailable_error, resource_missing_error, mark_container_error,
  cleanup_user_network_if_unused,
}
use text.Mathlib.Text.{◌==◌ as str_eq}

-- The two calls of uuid.New.
pub record NewIds : Type 0 where
  pub operation_id : ℕ
  pub outbox_id : ℕ

-- A result that is known without a call.
abbrev pub lift {ℓ} : {T : Type ℓ} → Result T → Action T
lift r w = (r, w)

-- `if err := …; err != nil { return err }` before what follows
unfoldable pub check : Result (Unit {0}) → Action (Unit {0}) → Action (Unit {0})
check r next = on (lift r) raise λ _. next

abbrev pub is_missing : Status → Bool
is_missing Status.missing = true
is_missing _ = false

abbrev pub is_being_created : Status → Bool
is_being_created Status.pending = true
is_being_created Status.creating = true
is_being_created _ = false

-- `if reservation <= 0 { return the default }`
abbrev pub or_default : ℤ → ℤ → ℤ
or_default reservation default_value =
    if leb_ℤ reservation (pos 0) then default_value else reservation

abbrev pub new_operation : NewIds → Container → OperationKind → ResourceOperation
new_operation ids c kind = record {
  id = ids.operation_id;
  resource_type = container;
  resource_id = c.id;
  owner_id = c.owner_id;
  operation = kind;
  status = OperationStatus.pending;
  attempts = 0;
  last_error = none;
}

abbrev pub new_message : NewIds → Container → OperationKind → LifecycleMessage
new_message ids c kind = record {
  operation_id = ids.operation_id;
  container_id = c.id;
  owner_id = c.owner_id;
  operation = kind;
  domain_prefix = "";
  internal_port = pos 0;
  previous_status = c.status;
}

abbrev pub new_outbox : NewIds → Container → OperationKind → ContainerLifecycleOutbox
new_outbox ids c kind = record {
  id = ids.outbox_id;
  operation_id = ids.operation_id;
  container_id = c.id;
  payload = new_message ids c kind;
  status = OutboxStatus.pending;
  attempts = 0;
  last_error = none;
}

module _ {F : Type 0} (env : Env) (cfg : SystemConfig F) (floats : Floats F)
    (context : Option Scope) (ids : NewIds) (readings : Readings F) where
  -- queueContainerOperation, with a message that names no route.
  unfoldable pub queue_operation : Container → OperationKind → Status → Status → Action (Unit {0})
  queue_operation c kind busy desired = transact env (
      queue_container_operation c.id busy desired (new_operation ids c kind)
        (new_outbox ids c kind))

  -- The container, where the request may see it.
  unfoldable pub for_owner : ℕ → (Container → Action (Unit {0})) → Action (Unit {0})
  for_owner container_id next =
      on (query env (get_by_id container_id)) raise
        λ c. on (lift (require_owner_access context c.owner_id)) raise λ _. next c

  -- What start and stop do with a container that Docker does not have.
  unfoldable pub if_present : Container → Action (Unit {0}) → Action (Unit {0})
  if_present c next =
      if is_missing c.status
      then raise (resource_unavailable_error "container")
      else if str_eq c.docker_id ""
      then (mark_container_error env cfg c.id Status.missing (resource_missing_error "container")
          ≫ raise (resource_unavailable_error "container"))
      else next

  unfoldable pub stop : ℕ → Action (Unit {0})
  stop container_id =
      for_owner container_id
        λ c. if_present c (queue_operation c OperationKind.stop Status.stopping Status.exited)

  -- The lock is held until the operation is queued.
  unfoldable pub start : ℕ → Action (Unit {0})
  start container_id = for_owner container_id λ c. if_present c (
      let memory = or_default c.base_memory_reservation cfg.default_memory_reservation in
      let cpu = or_default c.base_cpu_reservation cfg.default_cpu_reservation in
      check readings.lock (
        check (check_user_quota readings.user readings.user_memory memory) (
          check (check_user_cpu_quota floats cfg readings.user readings.user_cpu cpu) (
            check (check_host_capacity floats cfg readings memory) (
              check (check_host_cpu_capacity floats cfg readings cpu) (
                check
                  (ensure_disk_quota_available readings.user readings.image_mb
                    readings.volume_bytes)
                  (check
                    (ensure_host_disk_floor_projected readings.free_disk
                      cfg.host_min_free_disk_bytes (pos 0))
                    (queue_operation c OperationKind.start Status.starting Status.running))))))))

  unfoldable pub delete : ℕ → Action (Unit {0})
  delete container_id = for_owner container_id λ c.
      if str_eq c.docker_id "" && is_being_created c.status
      then on
          (transact env (
            cancel_active_create_and_delete_container container_id
              (some (new (sentinel conflict) "container create canceled by delete"))))
          raise (λ _. cleanup_user_network_if_unused env cfg c.owner_id ≫ return tt)
      else on (query env (λ db. ok (has_active_operation container container_id db))) raise
          λ active.
            if active
            then raise (new (sentinel conflict) "resource operation is already in progress")
            else queue_operation c OperationKind.delete Status.deleting Status.deleting

  unfoldable pub request : ℕ → String → Action (Unit {0})
  request container_id action =
      if str_eq action "start"
      then start container_id
      else if str_eq action "stop"
      then stop container_id
      else if str_eq action "delete"
      then delete container_id
      else raise (errorf "" (sentinel bad_request) ": invalid container action")
