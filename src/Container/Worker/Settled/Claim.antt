-- ===== src/Container/Worker/Settled/Claim.antt =====
-- What the claim of a pending operation does, while the database answers.
use docker_cloud_manager.Prelude.{
  ℕ, ◌≡◌, refl, some, List, [], ◌∷◌, arith, Bool-cases, Option-cases, inl, inr, ◌==◌,
}
use docker_cloud_manager.Config.{SystemConfig}
use docker_cloud_manager.Container.{OperationStatus, ResourceOperation}
use docker_cloud_manager.Container.Store.{find_where, update_where, has_operation_id}
use docker_cloud_manager.Container.Queue.{claim_pending_operation, claim_found, claimed}
use docker_cloud_manager.Container.Action.{Env, World, transact, counted_db, settle}
use docker_cloud_manager.Container.Worker.Settled.{IsAt, transact-steady, status-update}
use docker_cloud_manager.Container.Worker.Settled.Lifecycle.{IsSteady}

pub found_id :
    (k : ℕ) (ops : List ResourceOperation) (op : ResourceOperation)
    → find_where (has_operation_id k) ops ≡ some op
    → op.id ≡ k
found_id k [] op h = cc
found_id k (o ∷ ops) op h = elim (Bool-cases (o.id == k)) [
  | inl here ↦ ground arith
  | inr there ↦ found_id k ops op (ground arith)
]

-- The row of an operation, by its status.
pub row_of :
    (k : ℕ) (s : OperationStatus) (w : World)
    → IsAt k s w
    → (op : ResourceOperation) × (find_where (has_operation_id k) w.db.operations ≡ some op)
      × (op.id ≡ k)
      × (op.status ≡ s)
row_of k s w h = elim (Option-cases (find_where (has_operation_id k) w.db.operations)) [
  | inl missing ↦ cc missing
  | inr (op, found) ↦ (op, found, found_id k w.db.operations op found, ground arith)
]

module _ {F : Type 0} (env : Env) (cfg : SystemConfig F) (steady : IsSteady env) where
  -- What the claim of an operation gives, by its row.
  pub claim-row :
      (k : ℕ) (op : ResourceOperation) (w : World)
      → find_where (has_operation_id k) w.db.operations ≡ some op
      → transact env (claim_pending_operation k cfg.container_create_max_attempts) w
        ≡ settle (counted_db w) (claim_found k cfg.container_create_max_attempts (some op) w.db)
  unfolding claim_pending_operation
  claim-row k op w found =
      rw
        (transact-steady env steady k (claim_pending_operation k cfg.container_create_max_attempts)
          w)
        (rw found)

  abbrev pub claimed_world : ℕ → World → World
  claimed_world k w = record (counted_db w) {
    db = record (w.db) { operations = update_where (has_operation_id k) claimed w.db.operations };
  }

  pub claimed-IsAt :
      (k : ℕ) (w : World)
      → IsAt k OperationStatus.pending w
      → IsAt k OperationStatus.running (claimed_world k w)
  claimed-IsAt k w h =
      (status-update k (has_operation_id k) claimed OperationStatus.pending OperationStatus.running
        w.db.operations (λ op m. m) (λ op m e. m) (λ op. refl) (λ op. refl) h).1
