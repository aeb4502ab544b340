-- ===== src/Container/Worker/Creation/Steps.antt =====
-- Each part of ExecuteQueuedCreate leaves its operation settled.
use docker_cloud_manager.Prelude.{
  ℕ, ◌≡◌, Bool, true, false, Option, none, List, String, arith, Bool-cases, Option-cases, inl, inr,
}
use docker_cloud_manager.Prelude.Int.{pos}
use docker_cloud_manager.AppErrors.{Err}
use docker_cloud_manager.Config.{SystemConfig}
use docker_cloud_manager.Admission.{ensure_host_disk_floor_projected}
use docker_cloud_manager.Container.{
  Status, Container, OperationStatus, VolumeMountParams, Image, ImageStatus, Db,
}
use docker_cloud_manager.Container.Store.{update_docker_id_and_status}
use docker_cloud_manager.Container.Queue.Steps.{commit}
use docker_cloud_manager.Container.Queue.Transactions.{set_docker_id-operations, apply}
use docker_cloud_manager.Container.Resources.{mark_image_status_error}
use docker_cloud_manager.Container.Action.{
  Env, World, Action, on, transact, command, counted_db, ContainerRuntimeSpec, create_container,
  remove_container, image_exists, pull_image, remove_image,
}
use docker_cloud_manager.Container.Worker.{is_permanent_container_queue_error, user_network_name}
use docker_cloud_manager.Container.Worker.Create.{
  ResolvedImage, pull_error, fail_create, mark_image_missing, queued_create_runtime_spec,
}
use docker_cloud_manager.AppErrors.{is, unavailable}
use docker_cloud_manager.Container.Worker.Creation.{
  record_created, create_in_engine, create_with_image, with_pulled, pull_failed, pull_custom,
  pull_public, with_resolved,
}
use docker_cloud_manager.Container.Worker.Settled.{IsSettled, finished, complete-IsAt, spare-IsAt}
use docker_cloud_manager.Container.Worker.Settled.Handlers.{
  on-IsSettled, docker-IsAt, after_ensure-IsSettled,
}
use docker_cloud_manager.Container.Worker.Settled.Lifecycle.{IsSteady, HasForeignFaults}
use docker_cloud_manager.Container.Worker.Creation.Settled.{
  HasNoUnavailable, pull_error-IsKept, deferred-IsSettled, IsRun, fail_create-IsSettled,
  requeue_or_fail_create-IsSettled, engine-IsSettled, call-IsSettled, lift-IsSettled,
}

module _ {F : Type 0} (env : Env) (cfg : SystemConfig F) (steady : IsSteady env)
    (faults : HasForeignFaults env) (reachable : HasNoUnavailable env) (k container_id : ℕ) where
  abbrev pub Running : World → Type 0
  Running w = IsRun env cfg steady faults reachable k container_id w

  abbrev pub Settles : Action (Unit {0}) → Type 0
  Settles rest = (w : World) → Running w → IsSettled k (rest w)

  pub fails : (e : Err) → Settles (fail_create env cfg k container_id e)
  fails e = fail_create-IsSettled env cfg steady faults reachable k container_id e

  set_docker_id-spares :
      (docker_id : String) (db : Db)
      → (commit
          (update_docker_id_and_status container_id docker_id Status.created db)
          db).operations
        ≡ db.operations
  set_docker_id-spares docker_id db =
      unfold apply in set_docker_id-operations container_id docker_id Status.created db

  record_created-Settles :
      (docker_id : String) → Settles (record_created env cfg k container_id docker_id)
  unfolding record_created
  record_created-Settles docker_id w h =
      on-IsSettled env cfg steady faults k
        (transact env (update_docker_id_and_status container_id docker_id Status.created)) _ _ w
        (spare-IsAt env steady k _ OperationStatus.running w (set_docker_id-spares docker_id) h)
        (λ e v _ hv. fails e _ (
          docker-IsAt env cfg steady faults k (remove_container docker_id) _ OperationStatus.running
            v hv))
        (λ _ v hv.
          finished
            (complete-IsAt env steady k OperationStatus.running OperationStatus.done none v hv))

  create_in_engine-Settles :
      (spec : ContainerRuntimeSpec) → Settles (create_in_engine env cfg k container_id spec)
  unfolding create_in_engine
  create_in_engine-Settles spec w h =
      call-IsSettled env cfg steady faults reachable k container_id (create_container spec) _ _ w h
        record_created-Settles

  create_with_image-Settles :
      (c : Container) (mounts : List VolumeMountParams) (tag : String)
      → Settles (create_with_image env cfg k container_id c mounts tag)
  unfolding create_with_image
  create_with_image-Settles c mounts tag w h =
      after_ensure-IsSettled env cfg steady faults k _ w h (
        lift-IsSettled env cfg steady faults reachable k container_id
          (queued_create_runtime_spec env cfg c mounts tag (user_network_name env cfg c.owner_id))
          (create_in_engine env cfg k container_id) (counted_db w) h
          λ spec. create_in_engine-Settles spec (counted_db w) h)

  with_pulled-Settles :
      (tag : String) (pulled : Bool) (rest : Action (Unit {0}))
      → Settles rest
      → Settles (with_pulled env cfg k container_id tag pulled rest)
  unfolding with_pulled
  with_pulled-Settles tag true rest good w h =
      deferred-IsSettled k (command env (remove_image tag)) rest w
        (λ s v. docker-IsAt env cfg steady faults k (remove_image tag) _ s v) (good w h)
  with_pulled-Settles tag false rest good w h = good w h

  pull_failed-Settles :
      (e : Err)
      → is_permanent_container_queue_error e ≡ false
      → is e unavailable ≡ false
      → Settles (pull_failed env cfg k container_id e)
  unfolding pull_failed
  pull_failed-Settles e p u w h =
      requeue_or_fail_create-IsSettled env cfg steady faults reachable k container_id (pull_error e)
        w (pull_error-IsKept e p u) h

  mark_image-spares :
      (id : ℕ) (cause : Option Err) (db : Db)
      → (commit (mark_image_status_error id ImageStatus.missing cause db) db).operations
        ≡ db.operations
  unfolding mark_image_status_error
  mark_image-spares id cause db = ground arith

  pull_custom-Settles :
      (image : Image) (tag : String) (rest : Action (Unit {0}))
      → Settles rest
      → Settles (pull_custom env cfg k container_id image tag rest)
  unfolding pull_custom mark_image_missing
  pull_custom-Settles image tag rest good w h =
      engine-IsSettled env cfg steady faults reachable k container_id (pull_image tag) _ _ _ w h
        (λ e v p u hv. elim (Bool-cases (env.is_not_found e)) [
          | inl gone ↦ rw gone (
              pull_failed-Settles e p u _ (
                spare-IsAt env steady k _ OperationStatus.running v (mark_image-spares image.id _)
                  hv))
          | inr other ↦ rw other (pull_failed-Settles e p u v hv)
        ])
        (λ _. good)

  pull_public-Settles :
      (tag : String) (rest : Bool → Action (Unit {0}))
      → ((pulled : Bool) → Settles (rest pulled))
      → Settles (pull_public env cfg k container_id tag rest)
  unfolding pull_public
  pull_public-Settles tag rest good w h =
      call-IsSettled env cfg steady faults reachable k container_id (image_exists tag) _ _ w h
        (λ there v hv. elim (Bool-cases there) [
          | inl y ↦ rw y (good false v hv)
          | inr n ↦ rw n (
              lift-IsSettled env cfg steady faults reachable k container_id
                (ensure_host_disk_floor_projected env.free_disk cfg.host_min_free_disk_bytes
                  (pos 0))
                (λ _.
                  on (command env (pull_image tag)) (pull_failed env cfg k container_id)
                    (λ _. rest true))
                v hv (λ _. pulls v hv))
        ])
    where
      pulls :
          Settles (
            on (command env (pull_image tag)) (pull_failed env cfg k container_id) (λ _. rest true))
      pulls v hv =
          engine-IsSettled env cfg steady faults reachable k container_id (pull_image tag) _ _ _ v
            hv (λ e u p q. pull_failed-Settles e p q u) (λ _. good true)

  pub with_resolved-Settles :
      (c : Container) (mounts : List VolumeMountParams) (image : ResolvedImage)
      → Settles (with_resolved env cfg k container_id c mounts image)
  unfolding with_resolved
  with_resolved-Settles c mounts image w h =
      let tag = image.actual_image_tag in
      after_ensure-IsSettled env cfg steady faults k _ w h (elim (Option-cases image.custom_image) [
        | inl public ↦ rw public (
            pull_public-Settles tag _
              (λ pulled. with_pulled-Settles tag pulled _ (create_with_image-Settles c mounts tag))
              (counted_db w) h)
        | inr (custom, own) ↦ rw own (
            pull_custom-Settles custom tag _ (create_with_image-Settles c mounts tag) (counted_db w)
              h)
      ])
