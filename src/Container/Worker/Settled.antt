-- ===== src/Container/Worker/Settled.antt =====
-- How the calls of the worker move the status of one operation, while the database answers.
pub mod Handlers
pub mod Lifecycle
pub mod Expose
pub mod Claim
pub mod Dispatch
use docker_cloud_manager.Prelude.{
  ℕ, ◌+◌, ◌≡◌, refl, ◌∙◌, sym, ap, Bool, true, false, Option, none, some, List, [], ◌∷◌, String,
  arith, any, if◌then◌else◌, Bool-cases, Option-cases, inl, inr, ◌==◌, not, ◌&&◌, ◌||◌,
}
use docker_cloud_manager.Prelude.Int.{ℤ}
use docker_cloud_manager.AppErrors.{Err, is}
use docker_cloud_manager.Result.{Result, ok, err}
use docker_cloud_manager.Config.{SystemConfig}
use docker_cloud_manager.Container.{
  Status, Container, OperationStatus, ResourceOperation, LifecycleMessage, Db, is_running,
}
use docker_cloud_manager.Container.Store.{
  find_where, update_where, has_operation_id, has_container_id, update_container, mark_status_error,
  update_status, update_status_and_ttl_deadline, delete_container, get_by_id, get_operation_by_id,
  or_not_found, nullable_error,
}
use docker_cloud_manager.Container.Queue.Steps.{commit}
use docker_cloud_manager.Container.Queue.{complete_operation, requeue_operation, running_with_id}
use docker_cloud_manager.Container.Action.{
  Env, World, Action, return, raise, on, go_on, ◌≫◌, transact, query, command, docker, settle,
  counted_db, request_rebalance, DockerCall,
}
use docker_cloud_manager.Container.Worker.{
  normalize_container_runtime_error, is_permanent_container_queue_error, mark_container_error,
  fail_queued_lifecycle, ensure_create_operation_running, requeue_queued_create_if_retryable,
  requeued, requeue_or_fail, engine_failed, with_container, fail_with, execute_queued_start,
  execute_queued_stop, delete_row, removal_failed, execute_queued_delete,
  cleanup_user_network_if_unused,
}

abbrev pub status_of : Option ResourceOperation → Option OperationStatus
status_of none = none
status_of (some op) = some op.status

-- The operation `k` stands in the table with the status `s`.
abbrev pub IsAt : ℕ → OperationStatus → World → Type 0
IsAt k s w = status_of (find_where (has_operation_id k) w.db.operations) ≡ some s

pub data IsSettled (k : ℕ) : Result (Unit {0}) × World → Type 0 where
  finished : {w : World} → IsAt k OperationStatus.done w → IsSettled k (ok tt, w)
  gave_up : {e : Err} {w : World} → IsAt k OperationStatus.failed w → IsSettled k (err e, w)
  retried :
      {e : Err} {w : World}
      → IsAt k OperationStatus.pending w
      → is_permanent_container_queue_error e ≡ false
      → IsSettled k (err e, w)

-- An UPDATE by id gives the operation its new status.
pub status-update :
    (k : ℕ) (matches : ResourceOperation → Bool) (change : ResourceOperation → ResourceOperation)
    (s t : OperationStatus) (ops : List ResourceOperation)
    → ((op : ResourceOperation) → matches op ≡ true → (op.id == k) ≡ true)
    → ((op : ResourceOperation) → (op.id == k) ≡ true → op.status ≡ s → matches op ≡ true)
    → ((op : ResourceOperation) → (change op).id ≡ op.id)
    → ((op : ResourceOperation) → (change op).status ≡ t)
    → status_of (find_where (has_operation_id k) ops) ≡ some s
    → (any matches ops ≡ true)
      × (status_of (find_where (has_operation_id k) (update_where matches change ops)) ≡ some t)
status-update k matches change s t [] only hits same_id same_status h = cc
status-update k matches change s t (op ∷ ops) only hits same_id same_status h =
    elim (Bool-cases (op.id == k)) [
      | inl here ↦ (ground (arith, hits op), ground (arith, hits op, same_id op, same_status op))
      | inr there ↦
          let (met, found) =
            status-update k matches change s t ops only hits same_id same_status (ground arith) in
          (ground arith, ground (arith, only op, same_id op))
    ]

module _ (env : Env) (steady : (n : ℕ) → env.db_fault n ≡ none) (k : ℕ) where
  -- A transaction that does not fail to connect.
  pub transact-steady :
      {T : Type 0} (transaction : Db → Result (T × Db)) (w : World)
      → transact env transaction w ≡ settle (counted_db w) (transaction w.db)
  unfolding transact
  transact-steady transaction w = rw (steady w.db_calls, transact)

  pub complete-IsAt :
      (s t : OperationStatus) (cause : Option Err) (w : World)
      → IsAt k s w
      → IsAt k t (transact env (complete_operation k t cause) w).1
  unfolding complete_operation
  complete-IsAt s t cause w h =
      let (met, new) =
        status-update k (has_operation_id k)
          (λ op. record op { status = t; last_error = nullable_error cause }) s t w.db.operations
          (λ op m. m) (λ op m e. m) (λ op. refl) (λ op. refl) h in
      rw (transact-steady (complete_operation k t cause) w) (rw met new)

  pub requeue-IsAt :
      (cause : Option Err) (w : World)
      → IsAt k OperationStatus.running w
      → ((transact env (requeue_operation k cause) w).0 ≡ ok tt)
        × IsAt k OperationStatus.pending (transact env (requeue_operation k cause) w).1
  unfolding requeue_operation
  requeue-IsAt cause w h =
      let (met, new) =
        status-update k (running_with_id k)
          (λ op. record op { status = OperationStatus.pending; last_error = nullable_error cause })
          OperationStatus.running OperationStatus.pending w.db.operations (λ op m. ground arith)
          (λ op m e. ground arith) (λ op. refl) (λ op. refl) h in
      rw (transact-steady (requeue_operation k cause) w) (rw met (refl, new))

  -- A transaction on containers leaves the operation where it is.
  abbrev pub SparesOperations : {T : Type 0} → (Db → Result (T × Db)) → Type 0
  SparesOperations transaction = (db : Db) → (commit (transaction db) db).operations ≡ db.operations

  settle-IsAt :
      {T : Type 0} (r : Result (T × Db)) (s : OperationStatus) (w : World)
      → (commit r w.db).operations ≡ w.db.operations
      → IsAt k s w
      → IsAt k s (settle (counted_db w) r).1
  settle-IsAt (err e) s w same h = h
  settle-IsAt (ok (value, db)) s w same h = rw same h

  pub spare-IsAt :
      {T : Type 0} (transaction : Db → Result (T × Db)) (s : OperationStatus) (w : World)
      → SparesOperations transaction
      → IsAt k s w
      → IsAt k s (transact env transaction w).1
  spare-IsAt transaction s w spares h =
      rw (transact-steady transaction w) (settle-IsAt (transaction w.db) s w (spares w.db) h)
