-- ===== src/Container/Queue/Steps.antt =====
-- What single statements of backend/internal/core/repository/container.go, and the commit after them,
-- do to the table of operations.
use docker_cloud_manager.Prelude.{
  ℕ, ◌≡◌, refl, Bool, true, false, Option, none, some, arith, any, if◌then◌else◌, Bool-cases, inl,
  inr, not, ◌||◌,
}
use docker_cloud_manager.Prelude.Int.{ℤ}
use docker_cloud_manager.AppErrors.{Err, sentinel, not_found}
use docker_cloud_manager.Result.{Result, ok, err}
use docker_cloud_manager.Container.{ResourceOperation, ContainerLifecycleOutbox, Db, is_active}
use docker_cloud_manager.Container.Store.{
  update_where, find_where, has_operation_id, has_container_id, has_outbox_id, insert_outbox,
  of_operation,
}
use docker_cloud_manager.Container.Queue.{update_operations, claim_found, claimed, claimable}
use docker_cloud_manager.Container.Queue.Saved.{StepTo}
use docker_cloud_manager.Container.Queue.Active.{
  IsConsistent, IsCalm, all_calm, TableStep, stays, updates, AllCalm-of_found,
}

-- COMMIT, or ROLLBACK on an error.
abbrev pub commit {ℓ} : {A : Type ℓ} → Result (A × Db) → Db → Db
commit (ok r) db = r.1
commit (err e) db = db

-- A transaction that tests, and writes only where the test holds.
pub commit-if :
    {A : Type 0} (b : Bool) (a : A) (e : Err) (new db : Db)
    → TableStep db.operations new.operations
    → TableStep db.operations (commit (if b then ok (a, new) else err e) db).operations
commit-if true a e new db h = h
commit-if false a e new db h = stays

-- The last insert of a transaction, which keeps the operations or fails.
pub insert_outbox-operations :
    (item : ContainerLifecycleOutbox) (inner before : Db)
    → TableStep before.operations inner.operations
    → TableStep before.operations before.operations
    → TableStep before.operations (commit (insert_outbox item inner) before).operations
unfolding insert_outbox
insert_outbox-operations item inner before h s =
    elim (Bool-cases (
      any (has_outbox_id item.id) inner.outbox
      || any (of_operation item.operation_id) inner.outbox)) [
        | inl twice ↦ rw twice s
        | inr fresh ↦
            rw fresh
              (elim (Bool-cases (
                not (any (has_operation_id item.operation_id) inner.operations)
                || not (any (has_container_id item.container_id) inner.containers))) [
                  | inl dangling ↦ rw dangling s
                  | inr held ↦ rw held h
                ])
      ]

pub claim_found-TableStep :
    (id : ℕ) (most : ℤ) (o : Option ResourceOperation) (db : Db)
    → find_where (has_operation_id id) db.operations ≡ o
    → IsConsistent db.operations
    → TableStep db.operations (commit (claim_found id most o db) db).operations
unfolding claim_found
claim_found-TableStep id most none db f c = stays
claim_found-TableStep id most (some op) db f c = elim (Bool-cases (claimable most op)) [
  | inl free ↦ rw free (
      updates (has_operation_id id) claimed (
        AllCalm-of_found claimed id db.operations c.ids f (record {
          id = refl;
          resource_type = refl;
          resource_id = refl;
          operation = refl;
          active = λ e. ground arith;
        })))
  | inr busy ↦ rw busy stays
]

-- An UPDATE of the rows that match, none of which it makes active.
pub update-TableStep :
    (matches : ResourceOperation → Bool) (change : ResourceOperation → ResourceOperation) (db : Db)
    → ((op : ResourceOperation) → matches op ≡ true → IsCalm op (change op))
    → TableStep db.operations (commit (update_operations matches change db) db).operations
update-TableStep matches change db h =
    commit-if (any matches db.operations) tt (sentinel not_found)
      (record db { operations = update_where matches change db.operations }) db
      (updates matches change (all_calm matches change h db.operations))

-- A row that is done or failed afterwards.
pub ending-IsCalm :
    (op new : ResourceOperation)
    → new.id ≡ op.id
    → new.resource_type ≡ op.resource_type
    → new.resource_id ≡ op.resource_id
    → new.operation ≡ op.operation
    → is_active new.status ≡ false
    → IsCalm op new
ending-IsCalm op new i t r k a = record {
  id = i;
  resource_type = t;
  resource_id = r;
  operation = k;
  active = λ _. a;
}

pub commit-StepTo :
    (r : Result (Unit {0} × Db)) (db : Db)
    → StepTo db.operations r
    → TableStep db.operations (commit r db).operations
commit-StepTo (err e) db h = stays
commit-StepTo (ok x) db h = h
