-- ===== src/Container/Worker/Settled/Dispatch.antt =====
-- What becomes of an operation when a message that names it is delivered.
use docker_cloud_manager.Prelude.{
  ℕ, ◌≡◌, refl, true, false, not, ◌||◌, some, arith, Bool-cases, inl, inr, ◌⊎◌, ◌==◌,
}
use mathlib.Core.Path.{subst}
use docker_cloud_manager.Prelude.{sym}
use docker_cloud_manager.AppErrors.{new, sentinel, bad_request, timeout}
use docker_cloud_manager.Result.{ok}
use docker_cloud_manager.Config.{SystemConfig}
use docker_cloud_manager.Container.{
  OperationKind, OperationStatus, ResourceOperation, LifecycleMessage, is_pending, is_container,
}
use docker_cloud_manager.Container.Queue.{claim_found, claimed, claimable}
use docker_cloud_manager.Container.Action.{Env, World, Action, counted_db}
use docker_cloud_manager.Container.Worker.{fail_queued_lifecycle}
use docker_cloud_manager.Container.Worker.Dispatch.{
  execute_claimed, execute_unclaimed, execute_found, execute_queued_lifecycle, mismatch,
  attempts_exhausted,
}
use docker_cloud_manager.Container.Worker.Settled.{IsAt, IsSettled, gave_up, complete-IsAt}
use docker_cloud_manager.Container.Worker.Settled.Handlers.{
  fail_with-IsSettled, fail_queued_lifecycle-IsAt,
}
use docker_cloud_manager.Container.Worker.Settled.Lifecycle.{
  IsSteady, HasForeignFaults, execute_queued_start-IsSettled, execute_queued_stop-IsSettled,
  execute_queued_delete-IsSettled,
}
use docker_cloud_manager.Container.Worker.Settled.Claim.{
  row_of, claim-row, claimed_world, claimed-IsAt,
}
use docker_cloud_manager.Container.Worker.Settled.Expose.{execute_queued_expose-IsSettled}

module _ {F : Type 0} (env : Env) (cfg : SystemConfig F) (steady : IsSteady env)
    (faults : HasForeignFaults env) (container_id : ℕ) (msg : LifecycleMessage) where
  execute_claimed-IsSettled :
      (kind : OperationKind) (op : ResourceOperation) (w : World)
      → IsAt op.id OperationStatus.running w
      → IsSettled op.id (execute_claimed env cfg kind op container_id msg w)
  unfolding execute_claimed
  execute_claimed-IsSettled OperationKind.start op w h =
      execute_queued_start-IsSettled env cfg steady faults op container_id msg w h
  execute_claimed-IsSettled OperationKind.stop op w h =
      execute_queued_stop-IsSettled env cfg steady faults op container_id msg w h
  execute_claimed-IsSettled OperationKind.delete op w h =
      execute_queued_delete-IsSettled env cfg steady faults op container_id msg w h
  execute_claimed-IsSettled OperationKind.expose op w h =
      execute_queued_expose-IsSettled env cfg steady faults op container_id msg w h
  execute_claimed-IsSettled OperationKind.create op w h =
      fail_with-IsSettled env cfg steady faults op.id container_id msg.previous_status
        (new (sentinel bad_request) "unsupported container lifecycle operation")
        OperationStatus.running w h

  -- The handler of a claimed operation, the mismatch of the message included.
  claimed-IsSettled :
      (op : ResourceOperation) (w : World)
      → IsAt op.id OperationStatus.running w
      → IsSettled op.id (execute_found env cfg container_id msg (op, true) w)
  unfolding execute_found
  claimed-IsSettled op w h =
      elim (Bool-cases
        (not (is_container op.resource_type) || not (op.resource_id == container_id))) [
          | inl wrong ↦ rw wrong (
              gave_up (
                complete-IsAt env steady op.id OperationStatus.running OperationStatus.failed
                  (some mismatch) w h))
          | inr right ↦ rw right (execute_claimed-IsSettled op.operation op w h)
        ]

  abbrev fail_exhausted : ℕ → Action (Unit {0})
  fail_exhausted k =
      fail_queued_lifecycle env cfg k container_id msg.previous_status
        (new (sentinel timeout) "container lifecycle attempts exhausted")

  fail_exhausted-IsAt :
      (k : ℕ) (w : World)
      → IsAt k OperationStatus.pending w
      → IsAt k OperationStatus.failed (fail_exhausted k w).1
  fail_exhausted-IsAt k w h =
      fail_queued_lifecycle-IsAt env cfg steady faults k container_id msg.previous_status
        (new (sentinel timeout) "container lifecycle attempts exhausted") OperationStatus.pending w
        h

  -- A message that names a pending operation leaves it done, or failed, or back in the queue with a
  -- message that will be delivered again, while the database answers and the engine's errors are
  -- its own.
  pub execute_queued_lifecycle-IsSettled :
      (k : ℕ) (w : World)
      → IsAt k OperationStatus.pending w
      → IsSettled k (execute_queued_lifecycle env cfg k container_id msg w)
        ⊎ IsAt k OperationStatus.failed (execute_queued_lifecycle env cfg k container_id msg w).1
  unfolding execute_queued_lifecycle claim_found execute_found execute_unclaimed
  execute_queued_lifecycle-IsSettled k w h =
      let (op, found, same_id, same_status) = row_of k OperationStatus.pending w h in
      rw (claim-row env cfg steady k op w found)
        (elim (Bool-cases (claimable cfg.container_create_max_attempts op)) [
          | inl free ↦ rw free (
              inl (
                subst
                  (λ i. IsSettled i (
                    execute_found env cfg container_id msg (claimed op, true)
                      (claimed_world env cfg steady k w)))
                  same_id
                  (claimed-IsSettled (claimed op) (claimed_world env cfg steady k w) (
                    subst (λ i. IsAt i OperationStatus.running (claimed_world env cfg steady k w))
                      (sym same_id) (claimed-IsAt env cfg steady k w h)))))
          | inr taken ↦ rw taken (
              let late : attempts_exhausted env cfg op ≡ true = ground arith in
              rw late (
                inr (
                  subst (λ i. IsAt i OperationStatus.failed (fail_exhausted op.id (counted_db w)).1)
                    same_id
                    (fail_exhausted-IsAt op.id (counted_db w)
                      (subst (λ i. IsAt i OperationStatus.pending w) (sym same_id) h)))))
        ])

  -- A message that names an operation which is no longer pending does nothing, while the database
  -- answers: it is acknowledged, and neither the database nor the engine changes.
  pub execute_queued_lifecycle-delivered_again :
      (k : ℕ) (s : OperationStatus) (w : World)
      → is_pending s ≡ false
      → IsAt k s w
      → execute_queued_lifecycle env cfg k container_id msg w ≡ (ok tt, counted_db w)
  unfolding execute_queued_lifecycle claim_found execute_found execute_unclaimed
  execute_queued_lifecycle-delivered_again k s w p h =
      let (op, found, same_id, same_status) = row_of k s w h in
      let idle : is_pending op.status ≡ false = rw same_status p in
      rw (claim-row env cfg steady k op w found) (rw idle (rw idle refl))
