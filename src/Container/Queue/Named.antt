-- ===== src/Container/Queue/Named.antt =====
-- An operation stays in the table, on the same resource and of the same kind, whatever transactions
-- of backend/internal/core/repository/container.go run.
use docker_cloud_manager.Prelude.{
  ℕ, ◌≡◌, refl, sym, ◌∙◌, ap, Bool, true, false, some, List, [], ◌∷◌, arith, any, ◌==◌, Bool-cases,
  ==_iff, inl, inr,
}
use mathlib.Core.Path.{subst}
use docker_cloud_manager.Container.{ResourceType, OperationKind, ResourceOperation, Db}
use docker_cloud_manager.Container.Store.{update_where, find_where, has_operation_id}
use docker_cloud_manager.Container.Queue.Active.{
  IsConsistent, IsCalm, AllCalm, changed, IsCalm-changed, TableStep, stays, updates, inserts,
  TableStep-IsConsistent, is_taken,
}
use docker_cloud_manager.Container.Queue.Transactions.{Transaction, apply, run, apply-Steps}

-- The operation `k` of this kind on this resource.
pub record IsNamed (k : ℕ) (kind : OperationKind) (t : ResourceType) (id : ℕ)
    (ops : List ResourceOperation) : Type 0 where
  pub row : ResourceOperation
  pub found : find_where (has_operation_id k) ops ≡ some row
  pub operation : row.operation ≡ kind
  pub resource_type : row.resource_type ≡ t
  pub resource_id : row.resource_id ≡ id

found-update :
    (matches : ResourceOperation → Bool) (change : ResourceOperation → ResourceOperation) (k : ℕ)
    (ops : List ResourceOperation) (row : ResourceOperation)
    → AllCalm matches change ops
    → find_where (has_operation_id k) ops ≡ some row
    → (now : ResourceOperation) × (find_where (has_operation_id k) (update_where matches change ops)
        ≡ some now)
      × IsCalm row now
unfolding changed
found-update matches change k [] row calm h = cc
found-update matches change k (op ∷ ops) row (c, calm) h =
    let stays_same = IsCalm-changed matches change op c in
    elim (Bool-cases (op.id == k)) [
      | inl here ↦
          let same : op ≡ row = ground arith in
          let hit : ((changed matches change op).id == k) ≡ true =
            ap (λ i. i == k) stays_same.id ∙ here in
          (
            changed matches change op,
            rw hit refl,
            subst (λ o. IsCalm o (changed matches change op)) same stays_same,
          )
      | inr there ↦
          let miss : ((changed matches change op).id == k) ≡ false =
            ap (λ i. i == k) stays_same.id ∙ there in
          let (now, found, kept) = found-update matches change k ops row calm (rw there at h) in
          (now, rw miss found, kept)
    ]

found-there :
    (k : ℕ) (ops : List ResourceOperation) (row : ResourceOperation)
    → find_where (has_operation_id k) ops ≡ some row
    → any (has_operation_id k) ops ≡ true
found-there k [] row h = cc
found-there k (op ∷ ops) row h = elim (Bool-cases (op.id == k)) [
  | inl here ↦ rw here refl
  | inr there ↦ rw there (found-there k ops row (rw there at h))
]

-- A new row has another id than one that is there.
other_id :
    (op : ResourceOperation) (k : ℕ) (ops : List ResourceOperation)
    → any (has_operation_id k) ops ≡ true
    → is_taken op ops ≡ false
    → (op.id == k) ≡ false
other_id op k ops there free = elim (Bool-cases (op.id == k)) [
  | inr other ↦ other
  | inl same ↦
      let e =
        subst (λ n. any (has_operation_id n) ops ≡ true) (sym ((==_iff op.id k).0 same)) there in
      ground arith
]

module _ (k : ℕ) (kind : OperationKind) (t : ResourceType) (id : ℕ) where
  TableStep-IsNamed :
      {ops new : List ResourceOperation}
      → TableStep ops new
      → IsNamed k kind t id ops
      → IsNamed k kind t id new
  TableStep-IsNamed stays h = h
  TableStep-IsNamed {ops} (updates matches change calm) h =
      let (now, found, kept) = found-update matches change k ops h.row calm h.found in
      record {
        row = now;
        found = found;
        operation = kept.operation ∙ h.operation;
        resource_type = kept.resource_type ∙ h.resource_type;
        resource_id = kept.resource_id ∙ h.resource_id;
      }
  TableStep-IsNamed {ops} (inserts op free) h =
      let fresh = other_id op k ops (found-there k ops h.row h.found) free in
      record {
        row = h.row;
        found = rw fresh h.found;
        operation = h.operation;
        resource_type = h.resource_type;
        resource_id = h.resource_id;
      }

  pub run-IsNamed :
      (ts : List Transaction) (db : Db)
      → IsConsistent db.operations
      → IsNamed k kind t id db.operations
      → IsNamed k kind t id (run ts db).operations
  unfolding run
  run-IsNamed [] db c h = h
  run-IsNamed (x ∷ xs) db c h =
      let step = apply-Steps x db c in
      run-IsNamed xs (apply x db) (TableStep-IsConsistent step c) (TableStep-IsNamed step h)
