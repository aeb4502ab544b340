-- ===== src/Container/Worker/Settled/Expose.antt =====
-- No operation is lost by the handler of an expose.
use docker_cloud_manager.Prelude.{
  ℕ, ◌≡◌, Bool, true, false, ◌||◌, none, String, Bool-cases, inl, inr,
}
use docker_cloud_manager.Prelude.Int.{pos, leb_ℤ}
use docker_cloud_manager.AppErrors.{Err, new, sentinel, bad_request}
use docker_cloud_manager.Result.{Result}
use docker_cloud_manager.Config.{SystemConfig}
use docker_cloud_manager.Container.{
  Container, OperationStatus, ResourceOperation, LifecycleMessage, Db,
}
use docker_cloud_manager.Container.Store.{update_status, update_docker_id_routing_and_generation}
use docker_cloud_manager.Container.Queue.Steps.{commit}
use docker_cloud_manager.Container.Queue.Transactions.{
  apply, container-operations, set_routing-operations,
}
use docker_cloud_manager.Container.Action.{
  Env, World, return, raise, on, go_on, ◌≫◌, transact, docker, command, counted_db, start_container,
  stop_container, remove_container, inspect_container, create_container,
}
use docker_cloud_manager.Container.Worker.{
  resource_unavailable_error, normalize_container_runtime_error, fail_with, requeue_or_fail,
  engine_failed,
}
use docker_cloud_manager.Container.Worker.Expose.{
  next_generation, is_running_status, target_status, expose_spec, stop_started, expose_switch,
  expose_start, expose_created, execute_queued_expose,
}
use docker_cloud_manager.Container.Worker.Settled.{
  IsAt, IsSettled, finished, gave_up, retried, complete-IsAt, spare-IsAt,
}
use docker_cloud_manager.Container.Worker.Settled.Handlers.{
  on-IsSettled, fail_with-IsSettled, requeue_or_fail-IsSettled, engine_failed-IsSettled,
  with_container-IsSettled, after_ensure-IsSettled, docker-IsAt, permanent-normalize,
}
use docker_cloud_manager.Container.Worker.Settled.Lifecycle.{
  IsSteady, HasForeignFaults, engine-IsSettled,
}
use text.Mathlib.Text.{◌==◌ as str_eq}

module _ {F : Type 0} (env : Env) (cfg : SystemConfig F) (steady : IsSteady env)
    (faults : HasForeignFaults env) (op : ResourceOperation) (container_id : ℕ)
    (msg : LifecycleMessage) where
  abbrev Runs : World → Type 0
  Runs w = IsAt op.id OperationStatus.running w

  -- What the deferred removal of the new container leaves settled.
  removed-IsSettled :
      (new_docker_id : String) (r : Result (Unit {0}) × World)
      → IsSettled op.id r
      → IsSettled op.id
          (go_on (λ e. command env (remove_container new_docker_id) ≫ raise e) return r)
  removed-IsSettled new_docker_id _ (finished h) = finished h
  removed-IsSettled new_docker_id _ (gave_up {w = w} h) = gave_up (
      docker-IsAt env cfg steady faults op.id (remove_container new_docker_id) _
        OperationStatus.failed w h)
  removed-IsSettled new_docker_id _ (retried {w = w} h p) =
      retried
        (docker-IsAt env cfg steady faults op.id (remove_container new_docker_id) _
          OperationStatus.pending w h)
        p

  stop_started-IsAt :
      (started : Bool) (docker_id : String) (w : World)
      → Runs w
      → Runs (stop_started env cfg started docker_id w).1
  unfolding stop_started
  stop_started-IsAt true docker_id w h =
      docker-IsAt env cfg steady faults op.id (stop_container docker_id cfg.container_stop_timeout)
        _ OperationStatus.running w h
  stop_started-IsAt false docker_id w h = h

  fails-IsSettled :
      (e : Err) (w : World)
      → Runs w
      → IsSettled op.id (fail_with env cfg op.id container_id msg.previous_status e w)
  fails-IsSettled e w h =
      fail_with-IsSettled env cfg steady faults op.id container_id msg.previous_status e
        OperationStatus.running w h

  routing-spares :
      (new_docker_id : String) (c : Container) (db : Db)
      → (commit
          (update_docker_id_routing_and_generation container_id new_docker_id msg.domain_prefix
            msg.internal_port
            (next_generation c.docker_generation)
            db)
          db).operations
        ≡ db.operations
  routing-spares new_docker_id c db =
      unfold apply in
      set_routing-operations container_id new_docker_id msg.domain_prefix msg.internal_port
        (next_generation c.docker_generation) db

  expose_switch-IsSettled :
      (c : Container) (new_docker_id : String) (started : Bool) (w : World)
      → Runs w
      → IsSettled op.id (expose_switch env cfg op container_id msg c new_docker_id started w)
  unfolding expose_switch update_status
  expose_switch-IsSettled c new_docker_id started w h =
      on-IsSettled env cfg steady faults op.id
        (transact env (
          update_docker_id_routing_and_generation container_id new_docker_id msg.domain_prefix
            msg.internal_port (next_generation c.docker_generation)))
        _ _ w
        (spare-IsAt env steady op.id _ OperationStatus.running w (routing-spares new_docker_id c) h)
        (λ e v _ hv.
          fails-IsSettled e (stop_started env cfg started new_docker_id v).1
            (stop_started-IsAt started new_docker_id v hv))
        (λ _ v hv.
          on-IsSettled env cfg steady faults op.id
            (transact env (update_status container_id (target_status msg.previous_status))) _ _ v
            (spare-IsAt env steady op.id _ OperationStatus.running v
              (container-operations container_id _) hv)
            (λ e u _. fails-IsSettled e u)
            (λ _ u hu. finished (
              complete-IsAt env steady op.id OperationStatus.running OperationStatus.done none _ (
                docker-IsAt env cfg steady faults op.id (remove_container c.docker_id) _
                  OperationStatus.running u hu))))

  expose_start-IsSettled :
      (c : Container) (new_docker_id : String) (w : World)
      → Runs w
      → IsSettled op.id (expose_start env cfg op container_id msg c new_docker_id w)
  unfolding expose_start
  expose_start-IsSettled c new_docker_id w h =
      elim (Bool-cases
        (is_running_status msg.previous_status || is_running_status c.desired_status)) [
          | inl up ↦ rw up (
              engine-IsSettled env cfg steady faults op container_id msg
                (start_container new_docker_id) _ _ _ w h
                (λ e v p hv.
                  requeue_or_fail-IsSettled env cfg steady faults op.id container_id
                    msg.previous_status (normalize_container_runtime_error e) v
                    (permanent-normalize e p) hv)
                (λ _. expose_switch-IsSettled c new_docker_id true))
          | inr down ↦ rw down (expose_switch-IsSettled c new_docker_id false w h)
        ]

  expose_engine :
      (c : Container) (w : World)
      → Runs w
      → IsSettled op.id (
          on
            (docker env (inspect_container c.docker_id) env.inspection)
            (engine_failed env cfg op.id container_id msg.previous_status)
            (λ inspect.
              on
                (docker env
                  (create_container (expose_spec env cfg container_id c msg inspect))
                  env.new_docker_id)
                (λ e.
                  requeue_or_fail env cfg op.id container_id msg.previous_status
                    (normalize_container_runtime_error e))
                (expose_created env cfg op container_id msg c))
            w)
  unfolding expose_created
  expose_engine c w h =
      engine-IsSettled env cfg steady faults op container_id msg (inspect_container c.docker_id) _ _
        _ w h
        (λ e v.
          engine_failed-IsSettled env cfg steady faults op.id container_id msg.previous_status e v)
        (λ inspect v hv.
          engine-IsSettled env cfg steady faults op container_id msg
            (create_container (expose_spec env cfg container_id c msg inspect)) _ _ _ v hv
            (λ e u p hu.
              requeue_or_fail-IsSettled env cfg steady faults op.id container_id msg.previous_status
                (normalize_container_runtime_error e) u (permanent-normalize e p) hu)
            (λ new_docker_id u hu.
              removed-IsSettled new_docker_id _ (expose_start-IsSettled c new_docker_id u hu)))

  -- An expose leaves its operation done, or failed, or back in the queue with a message that will
  -- be delivered again, while the database answers and the engine's errors are its own.
  pub execute_queued_expose-IsSettled :
      (w : World) → Runs w → IsSettled op.id (execute_queued_expose env cfg op container_id msg w)
  unfolding execute_queued_expose expose_created
  execute_queued_expose-IsSettled w h =
      with_container-IsSettled env cfg steady faults op.id container_id _ w h λ c w' h'.
        elim (Bool-cases (str_eq c.docker_id "")) [
          | inl missing ↦
              rw missing (fails-IsSettled (resource_unavailable_error "container") w' h')
          | inr there ↦
              rw there
                (elim (Bool-cases
                  (str_eq msg.domain_prefix "" || leb_ℤ msg.internal_port (pos 0))) [
                    | inl bad ↦ rw bad (
                        fails-IsSettled
                          (new (sentinel bad_request)
                            "domain prefix and internal port are required")
                          w' h')
                    | inr fine ↦ rw fine (
                        after_ensure-IsSettled env cfg steady faults op.id _ w' h'
                          (expose_engine c (counted_db w') h'))
                  ])
        ]
