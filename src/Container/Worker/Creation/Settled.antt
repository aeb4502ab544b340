-- ===== src/Container/Worker/Creation/Settled.antt =====
-- A create is not lost by the worker.
use docker_cloud_manager.Prelude.{ℕ, ◌≡◌, false, some, arith, Option-cases, inl, inr}
use docker_cloud_manager.AppErrors.{Err, is, same, unavailable}
use docker_cloud_manager.Result.{Result, ok, err}
use docker_cloud_manager.Config.{SystemConfig}
use docker_cloud_manager.Container.{OperationStatus}
use docker_cloud_manager.Container.Store.{mark_status_error}
use docker_cloud_manager.Container.Queue.Transactions.{container-operations}
use docker_cloud_manager.Container.Action.{
  Env, World, Action, return, raise, on, go_on, ◌≫◌, docker, DockerCall,
}
use docker_cloud_manager.Container.Worker.{
  normalize_container_runtime_error, is_permanent_container_queue_error,
}
use docker_cloud_manager.Container.Worker.Create.{
  pull_error, fail_queued_create, fail_create, requeue_or_fail_create, lift,
}
use docker_cloud_manager.Container.Worker.Creation.{deferred}
use docker_cloud_manager.Container.Worker.Settled.{
  IsAt, IsSettled, finished, gave_up, retried, complete-IsAt, spare-IsAt,
}
use docker_cloud_manager.Container.Worker.Settled.Handlers.{
  permanent-normalize, on-IsSettled, docker-IsAt, docker-permanent, IsKept, requeue_or-IsSettled,
}
use docker_cloud_manager.Container.Worker.Settled.Lifecycle.{IsSteady, HasForeignFaults}

-- The engine's errors are not the application's error of a service that is unavailable.
abbrev pub HasNoUnavailable : Env → Type 0
HasNoUnavailable env = (n : ℕ) (e : Err) → env.docker_fault n ≡ some e → is e unavailable ≡ false

pub normalize-IsKept :
    (e : Err)
    → is_permanent_container_queue_error e ≡ false
    → IsKept (normalize_container_runtime_error e)
normalize-IsKept e p = let q = permanent-normalize e p in ground arith

pub pull_error-IsKept :
    (e : Err)
    → is_permanent_container_queue_error e ≡ false
    → is e unavailable ≡ false
    → IsKept (pull_error e)
unfolding is_permanent_container_queue_error normalize_container_runtime_error is same pull_error
pull_error-IsKept e p u = ground arith

pub deferred-IsSettled :
    (k : ℕ) (cleanup rest : Action (Unit {0})) (w : World)
    → ((s : OperationStatus) (v : World) → IsAt k s v → IsAt k s (cleanup v).1)
    → IsSettled k (rest w)
    → IsSettled k (deferred cleanup rest w)
unfolding deferred
deferred-IsSettled k cleanup rest w keeps h = go (rest w) h
  where
    go :
        (r : Result (Unit {0}) × World)
        → IsSettled k r
        → IsSettled k (go_on (λ e. cleanup ≫ raise e) return r)
    go _ (finished h) = finished h
    go _ (gave_up {w = v} h) = gave_up (keeps OperationStatus.failed v h)
    go _ (retried {w = v} h p) = retried (keeps OperationStatus.pending v h) p

module _ {F : Type 0} (env : Env) (cfg : SystemConfig F) (steady : IsSteady env)
    (faults : HasForeignFaults env) (reachable : HasNoUnavailable env) (k container_id : ℕ) where
  abbrev pub IsRun : World → Type 0
  IsRun w = IsAt k OperationStatus.running w

  pub fail_queued_create-IsAt :
      (e : Err) (s : OperationStatus) (w : World)
      → IsAt k s w
      → IsAt k OperationStatus.failed (fail_queued_create env cfg k container_id e w).1
  unfolding fail_queued_create mark_status_error
  fail_queued_create-IsAt e s w h =
      complete-IsAt env steady k s OperationStatus.failed _ _
        (spare-IsAt env steady k _ s w (container-operations container_id _) h)

  pub fail_create-IsSettled :
      (e : Err) (w : World) → IsRun w → IsSettled k (fail_create env cfg k container_id e w)
  unfolding fail_create
  fail_create-IsSettled e w h = gave_up (fail_queued_create-IsAt e OperationStatus.running w h)

  pub requeue_or_fail_create-IsSettled :
      (e : Err) (w : World)
      → IsKept e
      → IsRun w
      → IsSettled k (requeue_or_fail_create env cfg k container_id e w)
  unfolding requeue_or_fail_create
  requeue_or_fail_create-IsSettled e w kept h =
      requeue_or-IsSettled env cfg steady faults k e (fail_create env cfg k container_id e) w kept h
        (fail_create-IsSettled e w h)

  docker-reachable :
      {T : Type 0} (call : DockerCall) (answer : ℕ → T) (w w' : World) (e : Err)
      → docker env call answer w ≡ (err e, w')
      → is e unavailable ≡ false
  unfolding docker
  docker-reachable call answer w w' e h = elim (Option-cases (env.docker_fault w.docker_calls)) [
    | inl p ↦ ground arith
    | inr (f, p) ↦ reachable w.docker_calls e (ground arith)
  ]

  -- A call of the engine, with what is known of its error.
  pub engine-IsSettled :
      {T : Type 0} (call : DockerCall) (answer : ℕ → T) (failed : Err → Action (Unit {0}))
      (next : T → Action (Unit {0})) (w : World)
      → IsRun w
      → ((e : Err) (v : World)
          → is_permanent_container_queue_error e ≡ false
          → is e unavailable ≡ false
          → IsRun v
          → IsSettled k (failed e v))
      → ((t : T) (v : World) → IsRun v → IsSettled k (next t v))
      → IsSettled k (on (docker env call answer) failed next w)
  engine-IsSettled call answer failed next w h bad good =
      on-IsSettled env cfg steady faults k (docker env call answer) failed next w
        (docker-IsAt env cfg steady faults k call answer OperationStatus.running w h)
        (λ e v same.
          bad e v (docker-permanent env cfg steady faults k call answer w v e same)
            (docker-reachable call answer w v e same))
        good

  -- Its error is put back, or fails the create.
  pub call-IsSettled :
      {T : Type 0} (call : DockerCall) (answer : ℕ → T) (next : T → Action (Unit {0})) (w : World)
      → IsRun w
      → ((t : T) (v : World) → IsRun v → IsSettled k (next t v))
      → IsSettled k (
          on
            (docker env call answer)
            (λ e.
              requeue_or_fail_create env cfg k container_id (normalize_container_runtime_error e))
            next
            w)
  call-IsSettled call answer next w h =
      engine-IsSettled call answer _ next w h
        λ e v p _. requeue_or_fail_create-IsSettled _ v (normalize-IsKept e p)

  pub lift-IsSettled :
      {T : Type 0} (r : Result T) (next : T → Action (Unit {0})) (w : World)
      → IsRun w
      → ((t : T) → IsSettled k (next t w))
      → IsSettled k (on (lift env cfg r) (fail_create env cfg k container_id) next w)
  lift-IsSettled (err e) next w h good = fail_create-IsSettled e w h
  lift-IsSettled (ok t) next w h good = good t
