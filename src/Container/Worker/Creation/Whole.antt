-- ===== src/Container/Worker/Creation/Whole.antt =====
-- No message of the container queue is lost, whichever operation it names.
use docker_cloud_manager.Prelude.{
  ℕ, ◌≡◌, ◌⊎◌, true, not, ◌||◌, Option, none, some, List, [], ◌∷◌, any, arith, Bool-cases, inl, inr,
  ◌==◌,
}
use docker_cloud_manager.AppErrors.{Err}
use docker_cloud_manager.Config.{SystemConfig}
use docker_cloud_manager.Container.{
  Status, Container, OperationStatus, ResourceOperation, LifecycleMessage, VolumeMountParams,
  VolumeStatus, is_container, is_create, Db,
}
use docker_cloud_manager.Container.Store.{
  find_where, has_operation_id, has_container_id, update_status, get_operation_by_id,
}
use docker_cloud_manager.Container.Queue.{claimed, claimable, claim_found}
use docker_cloud_manager.Container.Queue.Steps.{commit}
use docker_cloud_manager.Container.Resources.{
  get_mounts_by_container_id, has_volume_id, mark_volume_status_error, list_images,
}
use docker_cloud_manager.Container.Action.{
  Env, World, Action, on, query, command, counted_db, ensure_user_network, inspect_volume,
}
use docker_cloud_manager.Container.Action.Keeps.{
  on-keeps, query-keeps, docker-keeps, transact-keeps,
}
use docker_cloud_manager.Container.Worker.{user_network_name, cleanup_user_network_if_unused}
use docker_cloud_manager.Container.Worker.Dispatch.{attempts_exhausted}
use docker_cloud_manager.Container.Worker.Create.{
  fail_create, mark_volume_missing, inspect_queued_create_volumes, resolve_queued_create_image,
  create_mismatch, attempts_error,
}
use docker_cloud_manager.Container.Worker.Creation.{
  with_resolved, create_in_network, create_row, create_found, create_unclaimed,
  execute_queued_create, execute_queued_container_operation,
}
use docker_cloud_manager.Container.Worker.Settled.{
  IsAt, IsSettled, finished, gave_up, complete-IsAt, status_of, transact-steady,
}
use docker_cloud_manager.Container.Worker.Settled.Handlers.{
  on-IsSettled, query-IsRunning, cleanup-IsAt, after_ensure-IsSettled, with_container-IsSettled,
}
use docker_cloud_manager.Container.Worker.Settled.Lifecycle.{IsSteady, HasForeignFaults}
use docker_cloud_manager.Container.Worker.Settled.Claim.{
  row_of, claim-row, claimed_world, claimed-IsAt,
}
use docker_cloud_manager.Container.Worker.Settled.Dispatch.{execute_queued_lifecycle-IsSettled}
use docker_cloud_manager.Container.Worker.Creation.Settled.{
  HasNoUnavailable, deferred-IsSettled, call-IsSettled, fail_queued_create-IsAt,
}
use docker_cloud_manager.Container.Worker.Creation.Steps.{Running, fails, with_resolved-Settles}
use text.Mathlib.Text.{◌==◌ as str_eq}

module _ {F : Type 0} (env : Env) (cfg : SystemConfig F) (steady : IsSteady env)
    (faults : HasForeignFaults env) (reachable : HasNoUnavailable env) (k container_id : ℕ) where
  abbrev Runs : World → Type 0
  Runs w = Running env cfg steady faults reachable k container_id w

  abbrev Ends : Action (Unit {0}) → Type 0
  Ends rest = (w : World) → Runs w → IsSettled k (rest w)

  failing : (e : Err) → Ends (fail_create env cfg k container_id e)
  failing e = fails env cfg steady faults reachable k container_id e

  abbrev AtRunning : Db → Type 0
  AtRunning db =
      status_of (find_where (has_operation_id k) db.operations) ≡ some OperationStatus.running

  resolved-Ends :
      (c : Container) (mounts : List VolumeMountParams)
      → Ends (
          on
            (resolve_queued_create_image env cfg c)
            (fail_create env cfg k container_id)
            (with_resolved env cfg k container_id c mounts))
  unfolding resolve_queued_create_image
  resolved-Ends c mounts w h =
      on-IsSettled env cfg steady faults k (resolve_queued_create_image env cfg c) _ _ w
        (on-keeps env AtRunning (query env (list_images c.owner_id)) _ _ w
          (query-keeps env AtRunning _ w h) (λ _ v there. there) (λ _ v there. there))
        (λ e v _. failing e v)
        (λ image.
          with_resolved-Settles env cfg steady faults reachable k container_id c mounts image)

  create_in_network-Ends :
      (c : Container) (mounts : List VolumeMountParams)
      → Ends (create_in_network env cfg k container_id c mounts)
  unfolding create_in_network
  create_in_network-Ends c mounts w h =
      call-IsSettled env cfg steady faults reachable k container_id
        (ensure_user_network (user_network_name env cfg c.owner_id)) _ _ w h
        λ _ v hv.
          deferred-IsSettled k (cleanup_user_network_if_unused env cfg c.owner_id) _ v
            (λ s u. cleanup-IsAt env cfg steady faults k c.owner_id s u)
            (resolved-Ends c mounts v hv)

  mark_volume-keeps :
      (id : ℕ) (s : VolumeStatus) (cause : Option Err) (db : Db)
      → AtRunning db
      → AtRunning (commit (mark_volume_status_error id s cause db) db)
  unfolding mark_volume_status_error
  mark_volume-keeps id s cause db h = elim (Bool-cases (any (has_volume_id id) db.volumes)) [
    | inl there ↦ rw there h
    | inr gone ↦ rw gone h
  ]

  inspected-Runs :
      (ms : List VolumeMountParams) (w : World)
      → Runs w
      → Runs (inspect_queued_create_volumes env cfg ms w).1
  unfolding inspect_queued_create_volumes mark_volume_missing
  inspected-Runs [] w h = h
  inspected-Runs (m ∷ ms) w h =
      on-keeps env AtRunning (command env (inspect_volume m.volume_name)) _ _ w
        (docker-keeps env AtRunning _ _ w h)
        (λ e v hv. elim (Bool-cases (env.is_not_found e)) [
          | inl gone ↦
              rw gone
                (transact-keeps env AtRunning _ v (mark_volume-keeps m.volume_id _ _ v.db hv) hv)
          | inr other ↦ rw other hv
        ])
        (λ _ v hv. inspected-Runs ms v hv)

  create_row-Ends : (c : Container) → Ends (create_row env cfg k container_id c)
  unfolding create_row
  create_row-Ends c w h = elim (Bool-cases (not (str_eq c.docker_id ""))) [
    | inl made ↦ rw made (
        finished (complete-IsAt env steady k OperationStatus.running OperationStatus.done none w h))
    | inr absent ↦ rw absent (
        on-IsSettled env cfg steady faults k (query env (get_mounts_by_container_id container_id)) _
          _ w (query-IsRunning env cfg steady faults k _ w h) (λ e v _. failing e v)
          λ mounts v hv. after_ensure-IsSettled env cfg steady faults k _ v hv (
            on-IsSettled env cfg steady faults k (inspect_queued_create_volumes env cfg mounts) _ _
              (counted_db v) (inspected-Runs mounts (counted_db v) hv) (λ e u _. failing e u)
              (λ _. create_in_network-Ends c mounts)))
  ]

  -- What follows the claim: the status of the container's row, which exists, and the row itself.
  create_claimed-IsSettled :
      (op : ResourceOperation) (w : World)
      → any (has_container_id container_id) w.db.containers ≡ true
      → Runs w
      → IsSettled k (create_found env cfg k container_id (op, true) w)
  unfolding create_found update_status
  create_claimed-IsSettled op w there h =
      elim (Bool-cases (
        not (is_container op.resource_type)
        || not (is_create op.operation)
        || not (op.resource_id == container_id))) [
          | inl wrong ↦ rw wrong (
              gave_up (
                complete-IsAt env steady k OperationStatus.running OperationStatus.failed
                  (some create_mismatch) w h))
          | inr right ↦ rw right (
              rw (transact-steady env steady k (update_status container_id Status.creating) w) (
                rw there (
                  with_container-IsSettled env cfg steady faults k container_id
                    (create_row env cfg k container_id) _ h create_row-Ends)))
        ]

  -- A message that names a pending create leaves it done, or failed, or back in the queue with a
  -- message that will be delivered again, while the database answers, the container's row exists,
  -- and the engine's errors are its own.
  pub execute_queued_create-IsSettled :
      (w : World)
      → any (has_container_id container_id) w.db.containers ≡ true
      → IsAt k OperationStatus.pending w
      → IsSettled k (execute_queued_create env cfg k container_id w)
        ⊎ IsAt k OperationStatus.failed (execute_queued_create env cfg k container_id w).1
  unfolding execute_queued_create claim_found create_found create_unclaimed
  execute_queued_create-IsSettled w there h =
      let (op, found, same_id, same_status) = row_of k OperationStatus.pending w h in
      rw (claim-row env cfg steady k op w found)
        (elim (Bool-cases (claimable cfg.container_create_max_attempts op)) [
          | inl free ↦ rw free (
              inl (
                create_claimed-IsSettled (claimed op) (claimed_world env cfg steady k w) there
                  (claimed-IsAt env cfg steady k w h)))
          | inr taken ↦ rw taken (
              let late : attempts_exhausted env cfg op ≡ true = ground arith in
              rw late (
                inr (
                  fail_queued_create-IsAt env cfg steady faults reachable k container_id
                    attempts_error OperationStatus.pending (counted_db w) h)))
        ])

  -- A message that names a pending operation, a create or another, leaves it done, or failed, or
  -- back in the queue with a message that will be delivered again, while the database answers, the
  -- container's row exists, and the engine's errors are its own.
  pub execute_queued_container_operation-IsSettled :
      (msg : LifecycleMessage) (w : World)
      → any (has_container_id container_id) w.db.containers ≡ true
      → IsAt k OperationStatus.pending w
      → IsSettled k (execute_queued_container_operation env cfg k container_id msg w)
        ⊎ IsAt k OperationStatus.failed
            (execute_queued_container_operation env cfg k container_id msg w).1
  unfolding execute_queued_container_operation query get_operation_by_id
  execute_queued_container_operation-IsSettled msg w there h =
      let (op, found, same_id, same_status) = row_of k OperationStatus.pending w h in
      rw (steady w.db_calls, query)
        (rw found (elim (Bool-cases (is_create op.operation)) [
          | inl y ↦ rw y (execute_queued_create-IsSettled (counted_db w) there h)
          | inr n ↦ rw n (
              execute_queued_lifecycle-IsSettled env cfg steady faults container_id msg k
                (counted_db w) h)
        ]))
