-- ===== src/Container/Requests/Outcome.antt =====
-- What a request of backend/internal/core/service/container.go that puts an operation into the queue
-- leaves there.
use docker_cloud_manager.Prelude.{
  ℕ, ◌≡◌, refl, false, List, none, not, ◌||◌, ◌==◌, arith, Option, some, [], ◌∷◌, ◌++◌, any,
  Bool-cases, Option-cases, ◌⊎◌, inl, inr,
}
use docker_cloud_manager.AppErrors.{Err}
use docker_cloud_manager.Result.{Result, ok, err}
use docker_cloud_manager.Config.{SystemConfig}
use docker_cloud_manager.AccessScope.{Scope, require_owner_access}
use docker_cloud_manager.Admission.{Floats, Readings}
use docker_cloud_manager.Container.{
  Status, Container, container, OperationKind, OperationStatus, OutboxStatus, ResourceOperation,
  ContainerLifecycleOutbox, Db,
}
use docker_cloud_manager.Container.Store.{
  get_by_id, find_where, has_container_id, has_outbox_id, nullable_error, mark_status_error,
  update_container, insert_resource_operation, insert_outbox, of_operation, has_operation_id,
  update_where,
}
use docker_cloud_manager.Container.Queue.{queue_container_operation}
use docker_cloud_manager.Container.Queue.Active.{is_taken}
use docker_cloud_manager.Container.Queue.Steps.{commit}
use mathlib.Core.Path.{subst}
use docker_cloud_manager.Container.Action.{Env, World, Action, transact, query, counted_db}
use docker_cloud_manager.Container.Action.Keeps.{transact-keeps}
use docker_cloud_manager.Container.Worker.{
  resource_missing_error, mark_container_error, normalize_container_runtime_error,
}
use docker_cloud_manager.Container.Requests.{
  NewIds, is_missing, new_operation, new_outbox, queue_operation, for_owner, if_present, check,
}
use text.Mathlib.Text.{◌==◌ as str_eq}

-- The operation of a container and the row that sends its message.
pub record IsQueued (kind : OperationKind) (c : Container) (op : ResourceOperation)
    (item : ContainerLifecycleOutbox) : Type 0 where
  pub operation : op.operation ≡ kind
  pub resource_type : op.resource_type ≡ container
  pub resource_id : op.resource_id ≡ c.id
  pub owner_id : op.owner_id ≡ c.owner_id
  pub status : op.status ≡ OperationStatus.pending
  pub attempts : op.attempts ≡ 0
  pub item_status : item.status ≡ OutboxStatus.pending
  pub item_operation : item.operation_id ≡ op.id
  pub item_container : item.container_id ≡ c.id
  pub payload_operation_id : item.payload.operation_id ≡ op.id
  pub payload_container : item.payload.container_id ≡ c.id
  pub payload_owner : item.payload.owner_id ≡ c.owner_id
  pub payload_operation : item.payload.operation ≡ kind
  pub payload_status : item.payload.previous_status ≡ c.status

-- A request that succeeds has put one pending operation of its kind on the container into the table,
-- whose id was not there, its message into the outbox, and the statuses into the row of the
-- container; one that fails has put nothing into the table of operations and the outbox.
pub data Outcome (kind : OperationKind) (busy desired : Status) (container_id : ℕ) (before : Db)
    : Result (Unit {0}) × World → Type 0 where
  queued :
      (c : Container) (op : ResourceOperation) (item : ContainerLifecycleOutbox) {w : World}
      → find_where (has_container_id container_id) before.containers ≡ some c
      → c.id ≡ container_id
      → is_taken op before.operations ≡ false
      → IsQueued kind c op item
      → w.db.operations ≡ op ∷ before.operations
      → w.db.outbox ≡ before.outbox ++ item ∷ []
      → w.db.containers
        ≡ update_where
            (has_container_id container_id)
            (λ d. record d { status = busy; desired_status = desired; last_error = none })
            before.containers
      → Outcome kind busy desired container_id before (ok tt, w)
  refused :
      {e : Err} {w : World}
      → w.db.operations ≡ before.operations
      → w.db.outbox ≡ before.outbox
      → Outcome kind busy desired container_id before (err e, w)

container_found-id :
    (id : ℕ) (cs : List Container) (c : Container)
    → find_where (has_container_id id) cs ≡ some c
    → c.id ≡ id
container_found-id id [] c h = cc
container_found-id id (d ∷ ds) c h = elim (Bool-cases (d.id == id)) [
  | inl here ↦ ground arith
  | inr there ↦ container_found-id id ds c (rw there at h)
]

pub Result-cases : (r : Result (Unit {0})) → (r ≡ ok tt) ⊎ ((e : Err) × (r ≡ err e))
Result-cases (ok _) = inl refl
Result-cases (err e) = inr (e, refl)

abbrev SameQueue : Db → Db → Type 0
SameQueue before db = (db.operations ≡ before.operations) × (db.outbox ≡ before.outbox)

update_container-SameQueue :
    (id : ℕ) (change : Container → Container) (db : Db)
    → SameQueue db (commit (update_container id change db) db)
update_container-SameQueue id change db =
    elim (Bool-cases (any (has_container_id id) db.containers)) [
      | inl p ↦ rw p (refl, refl)
      | inr n ↦ rw n (refl, refl)
    ]

new_IsQueued :
    (ids : NewIds) (c : Container) (kind : OperationKind)
    → IsQueued kind c (new_operation ids c kind) (new_outbox ids c kind)
new_IsQueued ids c kind = record {
  operation = refl;
  resource_type = refl;
  resource_id = refl;
  owner_id = refl;
  status = refl;
  attempts = refl;
  item_status = refl;
  item_operation = refl;
  item_container = refl;
  payload_operation_id = refl;
  payload_container = refl;
  payload_owner = refl;
  payload_operation = refl;
  payload_status = refl;
}

module _ {F : Type 0} (env : Env) (cfg : SystemConfig F) (floats : Floats F)
    (context : Option Scope) (ids : NewIds) (readings : Readings F) where
  queue_found-Outcome :
      (c : Container) (kind : OperationKind) (busy desired : Status) (w : World)
      → find_where (has_container_id c.id) w.db.containers ≡ some c
      → Outcome kind busy desired c.id w.db
          (queue_operation env cfg floats context ids readings c kind busy desired w)
  unfolding queue_operation transact queue_container_operation insert_resource_operation
      insert_outbox
  queue_found-Outcome c kind busy desired w found = elim (Option-cases (env.db_fault w.db_calls)) [
    | inr (e, p) ↦ rw (p, transact) (refused refl refl)
    | inl p ↦
        rw (p, transact)
          (elim (Bool-cases (is_taken (new_operation ids c kind) w.db.operations)) [
            | inl taken ↦ rw taken (refused refl refl)
            | inr free ↦ rw free (elim (Bool-cases (any (has_container_id c.id) w.db.containers)) [
              | inr gone ↦ rw gone (refused refl refl)
              | inl there ↦
                  rw there
                    (elim (Bool-cases (
                      any (has_outbox_id ids.outbox_id) w.db.outbox
                      || any (of_operation ids.operation_id) w.db.outbox)) [
                        | inl twice ↦ rw twice (refused refl refl)
                        | inr fresh ↦
                            rw fresh
                              (elim (Bool-cases (
                                not (
                                  (ids.operation_id == ids.operation_id)
                                  || any (has_operation_id ids.operation_id) w.db.operations)
                                || not (
                                    any (has_container_id c.id) (
                                      update_where (has_container_id c.id)
                                        (λ d. record d {
                                          status = busy;
                                          desired_status = desired;
                                          last_error = none;
                                        })
                                        w.db.containers)))) [
                                          | inl dangling ↦ rw dangling (refused refl refl)
                                          | inr held ↦ rw held (
                                              queued c (new_operation ids c kind)
                                                (new_outbox ids c kind) found refl free
                                                (new_IsQueued ids c kind) refl refl refl)
                                        ])
                      ])
            ])
          ])
  ]

  pub queue_operation-Outcome :
      (c : Container) (kind : OperationKind) (busy desired : Status) (id : ℕ) (w : World)
      → find_where (has_container_id id) w.db.containers ≡ some c
      → Outcome kind busy desired id w.db
          (queue_operation env cfg floats context ids readings c kind busy desired w)
  queue_operation-Outcome c kind busy desired id w found =
      subst
        (λ i.
          find_where (has_container_id i) w.db.containers ≡ some c
          → Outcome kind busy desired i w.db
              (queue_operation env cfg floats context ids readings c kind busy desired w))
        (container_found-id id w.db.containers c found) (queue_found-Outcome c kind busy desired w)
        found

  module _ (kind : OperationKind) (busy desired : Status) (id : ℕ) where
    pub check-Outcome :
        (r : Result (Unit {0})) (next : Action (Unit {0})) (w : World)
        → Outcome kind busy desired id w.db (next w)
        → Outcome kind busy desired id w.db (check r next w)
    unfolding check
    check-Outcome (err e) next w h = refused refl refl
    check-Outcome (ok _) next w h = h

    pub if_present-Outcome :
        (c : Container) (next : Action (Unit {0})) (w : World)
        → Outcome kind busy desired id w.db (next w)
        → Outcome kind busy desired id w.db
            (if_present env cfg floats context ids readings c next w)
    unfolding if_present mark_container_error mark_status_error
    if_present-Outcome c next w h = elim (Bool-cases (is_missing c.status)) [
      | inl p ↦ rw p (refused refl refl)
      | inr n ↦ rw n (elim (Bool-cases (str_eq c.docker_id "")) [
        | inl empty ↦ rw empty (
            let cause =
              some (normalize_container_runtime_error (resource_missing_error "container")) in
            let (ops, outbox) =
              transact-keeps env (SameQueue w.db) (mark_status_error c.id Status.missing cause) w
                (update_container-SameQueue c.id
                  (λ d. record d { status = Status.missing; last_error = nullable_error cause })
                  w.db)
                (refl, refl) in
            refused ops outbox)
        | inr given ↦ rw given h
      ])
    ]

    pub for_owner-Outcome :
        (next : Container → Action (Unit {0})) (w : World)
        → ((c : Container)
            → find_where (has_container_id id) w.db.containers ≡ some c
            → Outcome kind busy desired id w.db (next c (counted_db w)))
        → Outcome kind busy desired id w.db
            (for_owner env cfg floats context ids readings id next w)
    unfolding for_owner query get_by_id
    for_owner-Outcome next w h = elim (Option-cases (env.db_fault w.db_calls)) [
      | inr (e, p) ↦ rw (p, query) (refused refl refl)
      | inl p ↦
          rw (p, query)
            (elim (Option-cases (find_where (has_container_id id) w.db.containers)) [
              | inl missing ↦ rw missing (refused refl refl)
              | inr (c, found) ↦
                  rw found (elim (Result-cases (require_owner_access context c.owner_id)) [
                    | inr (e, denied) ↦ rw denied (refused refl refl)
                    | inl allowed ↦ rw allowed (h c found)
                  ])
            ])
    ]
