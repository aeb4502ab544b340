-- ===== src/Container/Worker/Settled/Lifecycle.antt =====
-- No operation is lost by the handlers of the worker.
use docker_cloud_manager.Prelude.{ℕ, ◌≡◌, false, none, some, if◌then◌else◌, Bool-cases, inl, inr}
use docker_cloud_manager.AppErrors.{Err}
use docker_cloud_manager.Config.{SystemConfig}
use docker_cloud_manager.Container.{
  Container, OperationStatus, ResourceOperation, LifecycleMessage, Db,
}
use docker_cloud_manager.Container.Store.{
  update_container, update_status, update_status_and_ttl_deadline, delete_container,
}
use docker_cloud_manager.Container.Queue.{complete_operation}
use docker_cloud_manager.Container.Queue.Steps.{commit}
use docker_cloud_manager.Container.Queue.Transactions.{delete-operations, apply}
use docker_cloud_manager.Container.Action.{
  Env, World, Action, raise, on, ◌≫◌, transact, docker, command, counted_db, request_rebalance,
  DockerCall, start_container, stop_container, remove_container, docker,
}
use docker_cloud_manager.Container.Worker.{
  resource_unavailable_error, is_permanent_container_queue_error, normalize_container_runtime_error,
  execute_queued_start, execute_queued_stop, execute_queued_delete, ensure_create_operation_running,
  engine_failed, delete_row, removal_failed, fail_with,
}
use docker_cloud_manager.Container.Worker.Settled.{
  IsAt, IsSettled, finished, complete-IsAt, spare-IsAt,
}
use docker_cloud_manager.Container.Worker.Settled.Handlers.{
  on-IsSettled, fail_with-IsSettled, requeue_or_fail-IsSettled, engine_failed-IsSettled,
  with_container-IsSettled, after_ensure-IsSettled, write-IsSettled, docker-IsAt, docker-permanent,
  cleanup-IsAt, permanent-normalize,
}
use text.Mathlib.Text.{◌==◌ as str_eq}

-- The database answers every call.
abbrev pub IsSteady : Env → Type 0
IsSteady env = (n : ℕ) → env.db_fault n ≡ none

-- The engine's errors are none of the application's permanent errors.
abbrev pub HasForeignFaults : Env → Type 0
HasForeignFaults env =
    (n : ℕ) (e : Err) → env.docker_fault n ≡ some e → is_permanent_container_queue_error e ≡ false

delete-spares :
    (container_id : ℕ) (db : Db)
    → (commit (delete_container container_id db) db).operations ≡ db.operations
delete-spares container_id db = unfold apply in delete-operations container_id db

-- What the worker relies on, and the message that it runs.
module _ {F : Type 0} (env : Env) (cfg : SystemConfig F) (steady : IsSteady env)
    (faults : HasForeignFaults env) (op : ResourceOperation) (container_id : ℕ)
    (msg : LifecycleMessage) where
  abbrev RunsAt : World → Type 0
  RunsAt w = IsAt op.id OperationStatus.running w

  -- A call of the engine, whose failure puts the operation back or fails it.
  pub engine-IsSettled :
      {T : Type 0} (call : DockerCall) (answer : ℕ → T) (failed : Err → Action (Unit {0}))
      (next : T → Action (Unit {0})) (w : World)
      → RunsAt w
      → ((e : Err) (w' : World)
          → is_permanent_container_queue_error e ≡ false
          → RunsAt w'
          → IsSettled op.id (failed e w'))
      → ((v : T) (w' : World) → RunsAt w' → IsSettled op.id (next v w'))
      → IsSettled op.id (on (docker env call answer) failed next w)
  engine-IsSettled call answer failed next w h bad good =
      on-IsSettled env cfg steady faults op.id (docker env call answer) failed next w
        (docker-IsAt env cfg steady faults op.id call answer OperationStatus.running w h)
        (λ e w' same.
          bad e w' (docker-permanent env cfg steady faults op.id call answer w w' e same))
        good

  -- An operation on a container that Docker has: the engine is called, then the row is written.
  on_engine-IsSettled :
      (c : Container) (call : DockerCall) (change : Container → Container) (w : World)
      → RunsAt w
      → IsSettled op.id (
          (if str_eq c.docker_id ""
              then fail_with env cfg op.id container_id msg.previous_status
                  (resource_unavailable_error "container")
              else on (ensure_create_operation_running env cfg op.id) raise λ _.
                on
                  (command env call)
                  (engine_failed env cfg op.id container_id msg.previous_status)
                  λ _.
                    on
                      (transact env (update_container container_id change))
                      (fail_with env cfg op.id container_id msg.previous_status)
                      λ _.
                        transact env (complete_operation op.id OperationStatus.done none)
                        ≫ request_rebalance)
            w)
  on_engine-IsSettled c call change w h = elim (Bool-cases (str_eq c.docker_id "")) [
    | inl missing ↦ rw missing (
        fail_with-IsSettled env cfg steady faults op.id container_id msg.previous_status
          (resource_unavailable_error "container") OperationStatus.running w h)
    | inr there ↦ rw there (
        after_ensure-IsSettled env cfg steady faults op.id _ w h (
          engine-IsSettled call _ _ _ (counted_db w) h
            (λ e w'.
              engine_failed-IsSettled env cfg steady faults op.id container_id msg.previous_status e
                w')
            (λ _.
              write-IsSettled env cfg steady faults op.id container_id change msg.previous_status)))
  ]

  -- A start leaves its operation done, or failed, or back in the queue with a message that will be
  -- delivered again, while the database answers and the engine's errors are its own.
  pub execute_queued_start-IsSettled :
      (w : World) → RunsAt w → IsSettled op.id (execute_queued_start env cfg op container_id msg w)
  unfolding execute_queued_start update_status_and_ttl_deadline
  execute_queued_start-IsSettled w h =
      with_container-IsSettled env cfg steady faults op.id container_id _ w h
        λ c. on_engine-IsSettled c (start_container c.docker_id) _

  -- A stop leaves its operation done, or failed, or back in the queue with a message that will be
  -- delivered again, while the database answers and the engine's errors are its own.
  pub execute_queued_stop-IsSettled :
      (w : World) → RunsAt w → IsSettled op.id (execute_queued_stop env cfg op container_id msg w)
  unfolding execute_queued_stop update_status
  execute_queued_stop-IsSettled w h =
      with_container-IsSettled env cfg steady faults op.id container_id _ w h
        λ c. on_engine-IsSettled c (stop_container c.docker_id cfg.container_stop_timeout) _

  delete_row-IsSettled :
      (owner_id : ℕ) (w : World)
      → RunsAt w
      → IsSettled op.id (delete_row env cfg op container_id msg owner_id w)
  unfolding delete_row
  delete_row-IsSettled owner_id w h =
      on-IsSettled env cfg steady faults op.id (transact env (delete_container container_id)) _ _ w
        (spare-IsAt env steady op.id _ OperationStatus.running w (delete-spares container_id) h)
        (λ e w' _.
          fail_with-IsSettled env cfg steady faults op.id container_id msg.previous_status e
            OperationStatus.running w')
        (λ _ w' h'. finished (
          cleanup-IsAt env cfg steady faults op.id owner_id OperationStatus.done
            (transact env (complete_operation op.id OperationStatus.done none) w').1
            (complete-IsAt env steady op.id OperationStatus.running OperationStatus.done none w'
              h')))

  -- A delete leaves its operation done, or failed, or back in the queue with a message that will
  -- be delivered again, while the database answers and the engine's errors are its own.
  pub execute_queued_delete-IsSettled :
      (w : World) → RunsAt w → IsSettled op.id (execute_queued_delete env cfg op container_id msg w)
  unfolding execute_queued_delete removal_failed
  execute_queued_delete-IsSettled w h =
      with_container-IsSettled env cfg steady faults op.id container_id _ w h λ c w' h'.
        after_ensure-IsSettled env cfg steady faults op.id _ w' h'
          (elim (Bool-cases (str_eq c.docker_id "")) [
            | inl none_there ↦ rw none_there (delete_row-IsSettled c.owner_id (counted_db w') h')
            | inr there ↦ rw there (
                engine-IsSettled (remove_container c.docker_id) _ _ _ (counted_db w') h'
                  (λ e v p hv. elim (Bool-cases (env.is_not_found e)) [
                    | inl gone ↦ rw gone (delete_row-IsSettled c.owner_id v hv)
                    | inr other ↦ rw other (
                        requeue_or_fail-IsSettled env cfg steady faults op.id container_id
                          msg.previous_status (normalize_container_runtime_error e) v
                          (permanent-normalize e p) hv)
                  ])
                  (λ _. delete_row-IsSettled c.owner_id))
          ])
