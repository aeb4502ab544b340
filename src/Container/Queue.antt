-- ===== src/Container/Queue.antt =====
-- backend/internal/core/repository/container.go: the transactions on operations and on the outbox
-- of the container queue.
pub mod Save
pub mod Active
pub mod Saved
pub mod Steps
pub mod Transactions
pub mod Named
use docker_cloud_manager.Prelude.{
  ℕ, ◌+◌, Bool, true, false, not, ◌&&◌, ◌||◌, Option, none, some, List, [], ◌∷◌, if◌then◌else◌,
  ◌==◌, any, suc, zero,
}
use docker_cloud_manager.Prelude.Int.{ℤ, pos, ltb_ℤ, leb_ℤ}
use docker_cloud_manager.AppErrors.{Err, sentinel, not_found}
use docker_cloud_manager.Result.{Result, ok, err, ◌>>=◌}
use docker_cloud_manager.Container.{
  Status, Container, ResourceType, container, OperationKind, OperationStatus, pending, running,
  done, failed, ResourceOperation, is_active, is_pending, is_running, same_resource_type,
  is_container, is_create, OutboxStatus, publishing, published, discarded, ContainerLifecycleOutbox,
  Db,
}
use docker_cloud_manager.Container.Store.{
  Tx, update_where, find_where, delete_where, or_not_found, has_container_id, has_operation_id,
  has_outbox_id, nullable_error, update_container, active_on, insert_resource_operation,
  in_container, insert_outbox, delete_container,
}

-- What `ClaimPendingOperation` decides on the row that it has locked.
abbrev pub claimable : ℤ → ResourceOperation → Bool
claimable max_attempts op =
    is_pending op.status && not (ltb_ℤ (pos 0) max_attempts && leb_ℤ max_attempts (pos op.attempts))

abbrev pub claimed : ResourceOperation → ResourceOperation
claimed op = record op { status = running; attempts = op.attempts + 1 }

unfoldable pub claim_found : ℕ → ℤ → Option ResourceOperation → Tx (ResourceOperation × Bool)
claim_found id max_attempts none db = err (sentinel not_found)
claim_found id max_attempts (some op) db =
    if claimable max_attempts op
    then ok (
      (claimed op, true),
      record db { operations = update_where (has_operation_id id) claimed db.operations },
    )
    else ok ((op, false), db)

unfoldable pub claim_pending_operation : ℕ → ℤ → Tx (ResourceOperation × Bool)
unfolding claim_found
claim_pending_operation id max_attempts db =
    claim_found id max_attempts (find_where (has_operation_id id) db.operations) db

-- An UPDATE of operations with the check that a row was affected.
abbrev pub update_operations :
    (ResourceOperation → Bool) → (ResourceOperation → ResourceOperation) → Tx (Unit {0})
update_operations matches change db =
    if any matches db.operations
    then ok (tt, record db { operations = update_where matches change db.operations })
    else err (sentinel not_found)

unfoldable pub complete_operation : ℕ → OperationStatus → Option Err → Tx (Unit {0})
complete_operation id status cause =
    update_operations (has_operation_id id)
      (λ op. record op { status = status; last_error = nullable_error cause })

abbrev pub running_with_id : ℕ → ResourceOperation → Bool
running_with_id id op = op.id == id && is_running op.status

unfoldable pub requeue_operation : ℕ → Option Err → Tx (Unit {0})
requeue_operation id cause =
    update_operations (running_with_id id)
      (λ op. record op { status = pending; last_error = nullable_error cause })

-- WHERE id = (SELECT id … ORDER BY created_at DESC LIMIT 1)
abbrev pub is_row : Option ResourceOperation → ResourceOperation → Bool
is_row none op = false
is_row (some row) op = op.id == row.id

unfoldable pub complete_latest_operation :
    ResourceType → ℕ → OperationStatus → Option Err → Tx (Unit {0})
complete_latest_operation t resource_id status cause db = ok (
  tt,
  record db {
    operations =
        update_where (is_row (find_where (active_on t resource_id) db.operations))
          (λ op. record op { status = status; last_error = nullable_error cause }) db.operations;
  },
)

-- A queued request writes the operation, the busy status and the message, or nothing at all.
unfoldable pub queue_container_operation :
    ℕ → Status → Status → ResourceOperation → ContainerLifecycleOutbox → Tx (Unit {0})
queue_container_operation id status desired_status op item db =
    insert_resource_operation op db >>= λ inserted.
    update_container id
      (λ c. record c { status = status; desired_status = desired_status; last_error = none })
      inserted.1
    >>= λ updated. insert_outbox item updated.1

abbrev pub failing : Option Err → ResourceOperation → ResourceOperation
failing cause op = record op { status = failed; last_error = nullable_error cause }

abbrev pub active_create_of : ℕ → ResourceOperation → Bool
active_create_of id op = active_on container id op && is_create op.operation

abbrev pub unpublished : OutboxStatus → Bool
unpublished OutboxStatus.pending = true
unpublished publishing = true
unpublished published = false
unpublished discarded = false

abbrev pub operation_is : ContainerLifecycleOutbox → ResourceOperation → Bool
operation_is item op = op.id == item.operation_id

-- The outbox rows of the operations that match, among those not yet published.
abbrev pub unpublished_of :
    (ResourceOperation → Bool) → List ResourceOperation → ContainerLifecycleOutbox → Bool
unpublished_of matches ops item =
    any (λ op. matches op && operation_is item op) ops && unpublished item.status

abbrev pub set_outbox :
    OutboxStatus → Option Err → ContainerLifecycleOutbox → ContainerLifecycleOutbox
set_outbox status cause item = record item { status = status; last_error = nullable_error cause }

unfoldable pub cancel_active_create_and_delete_container : ℕ → Option Err → Tx (Unit {0})
cancel_active_create_and_delete_container id cause db = delete_container id (record db {
  operations = update_where (active_create_of id) (failing cause) db.operations;
  outbox =
      update_where (unpublished_of (active_create_of id) db.operations) (set_outbox discarded cause)
        db.outbox;
})

-- At start-up: creates that were running are tried again.
abbrev pub is_container_create : ResourceOperation → Bool
is_container_create op = is_container op.resource_type && is_create op.operation

abbrev pub requeue_running_create : Option Err → ResourceOperation → ResourceOperation
requeue_running_create cause op = record op { status = pending; last_error = nullable_error cause }

abbrev pub pending_create_of : List ResourceOperation → ContainerLifecycleOutbox → Bool
pending_create_of ops item =
    any (λ op. (is_container_create op && is_pending op.status) && operation_is item op) ops

abbrev pub running_create : ResourceOperation → Bool
running_create op = is_container_create op && is_running op.status

unfoldable pub recover_interrupted_container_creates : Option Err → Db → Db
recover_interrupted_container_creates cause db =
    let ops = update_where running_create (requeue_running_create cause) db.operations in
    record db {
      operations = ops;
      outbox =
          update_where (pending_create_of ops) (set_outbox OutboxStatus.pending cause) db.outbox;
    }

abbrev pub running_other : ResourceOperation → Bool
running_other op = is_running op.status && not (is_container_create op)

unfoldable pub fail_active_non_create_operations : Option Err → Db → Db
fail_active_non_create_operations cause db = record db {
  operations = update_where running_other (failing cause) db.operations;
}
