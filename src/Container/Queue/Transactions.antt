-- ===== src/Container/Queue/Transactions.antt =====
-- Every order in which the service, the workers and start-up may run the transactions of
-- backend/internal/core/repository/container.go that are modelled, and what holds after all of them.
use docker_cloud_manager.Prelude.{
  ℕ, ◌≡◌, refl, Option, none, List, [], ◌∷◌, String, arith, any, Bool-cases, inl, inr,
}
use docker_cloud_manager.Prelude.Int.{ℤ}
use docker_cloud_manager.AppErrors.{Err}
use docker_cloud_manager.Container.{
  Container, VolumeMount, Status, ResourceType, ResourceOperation, ContainerLifecycleOutbox, Db,
  done, failed,
}
use docker_cloud_manager.Container.Store.{
  docker_id_taken, domain_prefix_taken, find_where, has_operation_id, has_container_id,
  update_status, update_status_and_ttl_deadline, mark_status_error, update_docker_id_and_status,
  update_docker_id_routing_and_generation, delete_container, update_container,
  insert_resource_operation, insert_outbox, active_on,
}
use docker_cloud_manager.Container.Queue.{
  claim_pending_operation, complete_operation, running_with_id, requeue_operation,
  complete_latest_operation, is_row, queue_container_operation,
  cancel_active_create_and_delete_container, active_create_of, failing,
  recover_interrupted_container_creates, running_create, requeue_running_create, running_other,
  fail_active_non_create_operations,
}
use docker_cloud_manager.Container.Queue.Save.{save_with_mounts_operation_and_outbox}
use docker_cloud_manager.Container.Queue.Saved.{save-StepTo}
use docker_cloud_manager.Container.Queue.Active.{
  IsConsistent, all_calm, is_taken, TableStep, stays, updates, inserts, TableStep-IsConsistent,
  IsSettled, TableStep-IsSettled,
}
use docker_cloud_manager.Container.Queue.Steps.{
  commit, insert_outbox-operations, claim_found-TableStep, update-TableStep, ending-IsCalm,
  commit-StepTo,
}

-- One transaction with its arguments. `complete` ends an operation as done or failed.
pub data Transaction : Type 0 where
  save : Container → List VolumeMount → ResourceOperation → ContainerLifecycleOutbox → Transaction
  queue : ℕ → Status → Status → ResourceOperation → ContainerLifecycleOutbox → Transaction
  claim : ℕ → ℤ → Transaction
  complete_done : ℕ → Transaction
  complete_failed : ℕ → Option Err → Transaction
  requeue : ℕ → Option Err → Transaction
  complete_latest_failed : ResourceType → ℕ → Option Err → Transaction
  set_status : ℕ → Status → Transaction
  set_status_and_ttl : ℕ → Status → Option ℤ → Transaction
  set_error : ℕ → Status → Option Err → Transaction
  set_docker_id : ℕ → String → Status → Transaction
  set_routing : ℕ → String → String → ℤ → ℤ → Transaction
  delete : ℕ → Transaction
  cancel_create : ℕ → Option Err → Transaction
  recover_creates : Option Err → Transaction
  fail_others : Option Err → Transaction

unfoldable pub apply : Transaction → Db → Db
apply (save c mounts op item) db =
    commit (save_with_mounts_operation_and_outbox c mounts op item db) db
apply (queue id busy desired op item) db =
    commit (queue_container_operation id busy desired op item db) db
apply (claim id most) db = commit (claim_pending_operation id most db) db
apply (complete_done id) db = commit (complete_operation id done none db) db
apply (complete_failed id cause) db = commit (complete_operation id failed cause db) db
apply (requeue id cause) db = commit (requeue_operation id cause db) db
apply (complete_latest_failed t id cause) db =
    commit (complete_latest_operation t id failed cause db) db
apply (set_status id status) db = commit (update_status id status db) db
apply (set_status_and_ttl id status deadline) db =
    commit (update_status_and_ttl_deadline id status deadline db) db
apply (set_error id status cause) db = commit (mark_status_error id status cause db) db
apply (set_docker_id id docker_id status) db =
    commit (update_docker_id_and_status id docker_id status db) db
apply (set_routing id docker_id prefix port generation) db =
    commit (update_docker_id_routing_and_generation id docker_id prefix port generation db) db
apply (delete id) db = commit (delete_container id db) db
apply (cancel_create id cause) db =
    commit (cancel_active_create_and_delete_container id cause db) db
apply (recover_creates cause) db = recover_interrupted_container_creates cause db
apply (fail_others cause) db = fail_active_non_create_operations cause db

unfoldable pub run : List Transaction → Db → Db
run [] db = db
run (t ∷ ts) db = run ts (apply t db)

-- What a transaction does to the table of operations, where that is consistent before.
abbrev pub Steps : Transaction → Db → Type 0
Steps t db = IsConsistent db.operations → TableStep db.operations (apply t db).operations

queue-Steps :
    (id : ℕ) (busy desired : Status) (op : ResourceOperation) (item : ContainerLifecycleOutbox)
    (db : Db)
    → Steps (queue id busy desired op item) db
unfolding apply queue_container_operation insert_resource_operation insert_outbox
queue-Steps id busy desired op item db c = elim (Bool-cases (is_taken op db.operations)) [
  | inl taken ↦ rw taken stays
  | inr free ↦ rw free (elim (Bool-cases (any (has_container_id id) db.containers)) [
    | inr gone ↦ rw gone stays
    | inl there ↦ rw there (insert_outbox-operations item _ db (inserts op free) stays)
  ])
]

claim-Steps : (id : ℕ) (most : ℤ) (db : Db) → Steps (claim id most) db
unfolding apply claim_pending_operation
claim-Steps id most db c = claim_found-TableStep id most _ db refl c

requeue-Steps : (id : ℕ) (cause : Option Err) (db : Db) → Steps (requeue id cause) db
unfolding apply requeue_operation
requeue-Steps id cause db c = update-TableStep (running_with_id id) _ db (λ op m. record {
  id = refl;
  resource_type = refl;
  resource_id = refl;
  operation = refl;
  active = λ e. ground arith;
})

-- Transactions that write no operation.
pub container-operations :
    (id : ℕ) (change : Container → Container) (db : Db)
    → (commit (update_container id change db) db).operations ≡ db.operations
container-operations id change db = ground arith

pub set_docker_id-operations :
    (id : ℕ) (docker_id : String) (status : Status) (db : Db)
    → (apply (set_docker_id id docker_id status) db).operations ≡ db.operations
unfolding apply update_docker_id_and_status
set_docker_id-operations id docker_id status db =
    elim (Bool-cases (any (docker_id_taken id docker_id) db.containers)) [
      | inl p ↦ rw p
      | inr n ↦ rw n (container-operations id _ db)
    ]

pub set_routing-operations :
    (id : ℕ) (docker_id prefix : String) (port generation : ℤ) (db : Db)
    → (apply (set_routing id docker_id prefix port generation) db).operations ≡ db.operations
unfolding apply update_docker_id_routing_and_generation
set_routing-operations id docker_id prefix port generation db =
    elim (Bool-cases (any (docker_id_taken id docker_id) db.containers)) [
      | inl p ↦ rw p
      | inr n ↦ rw n (elim (Bool-cases (any (domain_prefix_taken id prefix) db.containers)) [
        | inl q ↦ rw q
        | inr m ↦ rw m (container-operations id _ db)
      ])
    ]

pub delete-operations : (id : ℕ) (db : Db) → (apply (delete id) db).operations ≡ db.operations
unfolding apply delete_container
delete-operations id db = elim (Bool-cases (any (has_container_id id) db.containers)) [
  | inl p ↦ rw p
  | inr n ↦ rw n
]

cancel-Steps : (id : ℕ) (cause : Option Err) (db : Db) → Steps (cancel_create id cause) db
unfolding apply cancel_active_create_and_delete_container delete_container
cancel-Steps id cause db c = elim (Bool-cases (any (has_container_id id) db.containers)) [
  | inl p ↦ rw p (
      updates (active_create_of id) (failing cause)
        (all_calm _ _ (λ op m. ending-IsCalm op _ refl refl refl refl refl) db.operations))
  | inr n ↦ rw n stays
]

recover-Steps : (cause : Option Err) (db : Db) → Steps (recover_creates cause) db
unfolding apply recover_interrupted_container_creates
recover-Steps cause db c = updates running_create (requeue_running_create cause) (
    all_calm _ _
      (λ op m. record {
        id = refl;
        resource_type = refl;
        resource_id = refl;
        operation = refl;
        active = λ e. ground arith;
      })
      db.operations)

-- Each transaction takes one such step.
pub apply-Steps : (t : Transaction) (db : Db) → Steps t db
unfolding apply complete_operation complete_latest_operation update_status
    update_status_and_ttl_deadline mark_status_error fail_active_non_create_operations
apply-Steps (save row mounts op item) db c =
    commit-StepTo (save_with_mounts_operation_and_outbox row mounts op item db) db
      (save-StepTo row mounts op item db)
apply-Steps (queue id busy desired op item) db c = queue-Steps id busy desired op item db c
apply-Steps (claim id most) db c = claim-Steps id most db c
apply-Steps (complete_done id) db c =
    update-TableStep (has_operation_id id) _ db
      (λ op m. ending-IsCalm op _ refl refl refl refl refl)
apply-Steps (complete_failed id cause) db c =
    update-TableStep (has_operation_id id) _ db
      (λ op m. ending-IsCalm op _ refl refl refl refl refl)
apply-Steps (requeue id cause) db c = requeue-Steps id cause db c
apply-Steps (complete_latest_failed t id cause) db c =
    updates (is_row (find_where (active_on t id) db.operations)) (failing cause)
      (all_calm _ _ (λ op m. ending-IsCalm op _ refl refl refl refl refl) db.operations)
apply-Steps (set_status id status) db c = rw (container-operations id _ db) stays
apply-Steps (set_status_and_ttl id status deadline) db c = rw (container-operations id _ db) stays
apply-Steps (set_error id status cause) db c = rw (container-operations id _ db) stays
apply-Steps (set_docker_id id docker_id status) db c =
    rw (set_docker_id-operations id docker_id status db) stays
apply-Steps (set_routing id docker_id prefix port generation) db c =
    rw (set_routing-operations id docker_id prefix port generation db) stays
apply-Steps (delete id) db c = rw (delete-operations id db) stays
apply-Steps (cancel_create id cause) db c = cancel-Steps id cause db c
apply-Steps (recover_creates cause) db c = recover-Steps cause db c
apply-Steps (fail_others cause) db c =
    updates running_other (failing cause)
      (all_calm _ _ (λ op m. ending-IsCalm op _ refl refl refl refl refl) db.operations)

-- Whatever transactions run, in whatever order, from a table where a resource has one active
-- operation at most and no two operations share an id, both stay so.
pub run-IsConsistent :
    (ts : List Transaction) (db : Db)
    → IsConsistent db.operations
    → IsConsistent (run ts db).operations
unfolding run
run-IsConsistent [] db c = c
run-IsConsistent (t ∷ ts) db c =
    run-IsConsistent ts (apply t db) (TableStep-IsConsistent (apply-Steps t db c) c)

-- From a table where a resource has one active operation at most and no two operations share an
-- id, an operation that is done or failed is never active again, and stays in the table, whatever
-- transactions run after.
pub run-IsSettled :
    (ts : List Transaction) (db : Db) (k : ℕ)
    → IsConsistent db.operations
    → IsSettled k db.operations
    → IsSettled k (run ts db).operations
unfolding run
run-IsSettled [] db k c s = s
run-IsSettled (t ∷ ts) db k c s =
    let step = apply-Steps t db c in
    run-IsSettled ts (apply t db) k (TableStep-IsConsistent step c) (TableStep-IsSettled k step s)
