-- ===== src/Container/Requests/Delivered.antt =====
-- From a request to the end of its operation: what a request has queued, the worker settles, whatever
-- happens in between.
use docker_cloud_manager.Prelude.{ℕ, ◌≡◌, [], ◌∷◌, ◌++◌}
use docker_cloud_manager.Result.{Result, ok}
use docker_cloud_manager.Config.{SystemConfig}
use docker_cloud_manager.Container.{
  container, OperationKind, OperationStatus, ResourceOperation, ContainerLifecycleOutbox, Db,
}
use docker_cloud_manager.Container.Queue.Named.{IsNamed}
use docker_cloud_manager.Container.Action.{Env, World, counted_db}
use docker_cloud_manager.Container.Worker.Dispatch.{execute_queued_lifecycle}
use docker_cloud_manager.Container.Worker.Settled.{IsAt, IsSettled}
use docker_cloud_manager.Container.Requests.Outcome.{Outcome}

-- What the delivery of the message of the operation `k` gives: the operation is done, failed or back
-- in the queue; or another worker is at it, and nothing has been done.
pub data Delivery (k : ℕ) (before : World) (r : Result (Unit {0}) × World) : Type 0 where
  settled : IsSettled k r → Delivery k before r
  failed : IsAt k OperationStatus.failed r.1 → Delivery k before r
  elsewhere :
      IsAt k OperationStatus.running before → r ≡ (ok tt, counted_db before) → Delivery k before r

module _ {F : Type 0} (env : Env) (cfg : SystemConfig F) where
  -- An operation of the kind on the container was added with its message, is still what it was when
  -- the message is delivered, and the delivery ends as above.
  pub record IsDelivered (kind : OperationKind) (container_id : ℕ) (before : Db) (w later : World)
      : Type 0 where
    pub op : ResourceOperation
    pub item : ContainerLifecycleOutbox
    pub added : w.db.operations ≡ op ∷ before.operations
    pub sent : w.db.outbox ≡ before.outbox ++ item ∷ []
    pub operation : op.operation ≡ kind
    pub resource : op.resource_id ≡ container_id
    pub names_operation : item.payload.operation_id ≡ op.id
    pub names_container : item.payload.container_id ≡ container_id
    pub stays : IsNamed op.id kind container container_id later.db.operations
    pub delivered : Delivery op.id later (
        execute_queued_lifecycle env cfg item.payload.operation_id item.payload.container_id
          item.payload later)
