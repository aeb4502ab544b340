-- ===== src/Container/Outbox.antt =====
-- backend/internal/core/service/container_outbox_worker.go, and the transactions of
-- backend/internal/core/repository/container.go on its rows: the rows of the outbox become messages
-- of the container queue. The outbox is in the order of created_at. A row does not keep when it was
-- last written: `is_stale` tells which rows were not written for a minute.
pub mod Step
pub mod Leased
pub mod Batch
pub mod Delivery
use docker_cloud_manager.Prelude.{
  ℕ, ◌-◌, Bool, true, false, not, ◌&&◌, Option, none, some, List, [], ◌∷◌, any, ltb, if◌then◌else◌,
  ◌+◌, ◌==◌,
}
use docker_cloud_manager.Prelude.Int.{ℤ, pos, negsuc}
use docker_cloud_manager.AppErrors.{Err, is, sentinel, foreign, not_found}
use docker_cloud_manager.Result.{ok, err}
use docker_cloud_manager.Config.{SystemConfig}
use docker_cloud_manager.Container.{
  OutboxStatus, publishing, published, discarded, ContainerLifecycleOutbox, is_pending, Db,
}
use docker_cloud_manager.Container.Store.{
  Tx, update_where, has_outbox_id, nullable_error, get_by_id, get_operation_by_id,
}
use docker_cloud_manager.Container.Queue.{set_outbox, unpublished}
use docker_cloud_manager.Container.Action.{Env, Action, return, on, ◌≫◌, transact, query, publish}

-- WHERE status = 'pending' OR (status = 'publishing' AND updated_at < NOW() - INTERVAL '1 minute')
unfoldable pub leasable : (ContainerLifecycleOutbox → Bool) → ContainerLifecycleOutbox → Bool
leasable is_stale item = elim item.status [
  | OutboxStatus.pending ↦ true
  | publishing ↦ is_stale item
  | _ ↦ false
]

abbrev pub lease_row : ContainerLifecycleOutbox → ContainerLifecycleOutbox
lease_row item = record item { status = publishing; attempts = item.attempts + 1 }

-- The rows leased, and the table afterwards.
unfoldable pub lease_rows :
    (ContainerLifecycleOutbox → Bool)
    → ℕ
    → List ContainerLifecycleOutbox
    → List ContainerLifecycleOutbox × List ContainerLifecycleOutbox
lease_rows is_stale limit [] = ([], [])
lease_rows is_stale limit (item ∷ items) =
    let taken = leasable is_stale item && ltb 0 limit in
    let rest = lease_rows is_stale (if taken then limit - 1 else limit) items in
    (
      (if taken then lease_row item ∷ rest.0 else rest.0),
      (if taken then lease_row item else item) ∷ rest.1,
    )

unfoldable pub lease_pending_container_outbox :
    (ContainerLifecycleOutbox → Bool) → ℤ → Tx (List ContainerLifecycleOutbox)
lease_pending_container_outbox is_stale (negsuc n) db =
    err (foreign "pq: LIMIT must not be negative")
lease_pending_container_outbox is_stale (pos limit) db =
    let leased = lease_rows is_stale limit db.outbox in
    ok (leased.0, record db { outbox = leased.1 })

unfoldable pub update_container_outbox_status : ℕ → OutboxStatus → Option Err → Tx (Unit {0})
update_container_outbox_status id status cause db =
    if any (has_outbox_id id) db.outbox
    then ok (
      tt,
      record db { outbox = update_where (has_outbox_id id) (set_outbox status cause) db.outbox },
    )
    else err (sentinel not_found)

abbrev pub unpublished_by : ℕ → ContainerLifecycleOutbox → Bool
unpublished_by operation_id item = item.operation_id == operation_id && unpublished item.status

unfoldable pub discard_container_outbox_by_operation : ℕ → Option Err → Tx (Unit {0})
discard_container_outbox_by_operation operation_id cause db = ok (
  tt,
  record db {
    outbox = update_where (unpublished_by operation_id) (set_outbox discarded cause) db.outbox;
  },
)

module _ {F : Type 0} (env : Env) (cfg : SystemConfig F) where
  -- MarkContainerOutboxPublished, MarkContainerOutboxPending and MarkContainerOutboxDiscarded,
  -- whose errors are dropped or logged
  unfoldable pub mark : ContainerLifecycleOutbox → OutboxStatus → Option Err → Action (Unit {0})
  mark item status cause =
      transact env (update_container_outbox_status item.id status cause) ≫ return tt

  -- An operation or a container that cannot be read.
  unfoldable pub unread : ContainerLifecycleOutbox → Err → Action (Unit {0})
  unread item e = mark item (if is e not_found then discarded else OutboxStatus.pending) (some e)

  -- The body of the loop of publishBatch.
  unfoldable pub publish_item : ContainerLifecycleOutbox → Action (Unit {0})
  publish_item item = on (query env (get_operation_by_id item.operation_id)) (unread item) λ op.
      if not (is_pending op.status)
      then mark item discarded none
      else on (query env (get_by_id item.container_id)) (unread item) λ _.
        on (publish env item.payload) (λ e. mark item OutboxStatus.pending (some e))
          λ _. mark item published none

  unfoldable pub publish_items : List ContainerLifecycleOutbox → Action (Unit {0})
  publish_items [] = return tt
  publish_items (item ∷ items) = publish_item item ≫ publish_items items

  unfoldable pub publish_batch : (ContainerLifecycleOutbox → Bool) → Action (Unit {0})
  publish_batch is_stale =
      on
        (transact env
          (lease_pending_container_outbox is_stale cfg.container_create_outbox_batch_size))
        (λ _. return tt) publish_items
