-- ===== src/Container/Worker/Settled/Handlers.antt =====
-- What each part of a handler of the worker does with an operation that is running.
use docker_cloud_manager.Prelude.{
  ℕ, ◌≡◌, refl, true, false, none, some, List, arith, any, Bool-cases, Option-cases, inl, inr, not,
  ◌&&◌, if◌then◌else◌,
}
use docker_cloud_manager.AppErrors.{Err, is, same, timeout, unavailable}
use docker_cloud_manager.Result.{Result, ok, err}
use docker_cloud_manager.Config.{SystemConfig}
use docker_cloud_manager.Container.{
  Status, Container, OperationStatus, ResourceOperation, Db, is_running,
}
use docker_cloud_manager.Container.Store.{
  update_container, find_where, has_operation_id, mark_status_error, get_by_id, get_operation_by_id,
  or_not_found,
}
use docker_cloud_manager.Container.Queue.{complete_operation, requeue_operation}
use docker_cloud_manager.Container.Queue.Transactions.{container-operations}
use docker_cloud_manager.Container.Action.{
  Env, World, Action, raise, on, go_on, ◌≫◌, transact, query, docker, counted_db, request_rebalance,
  DockerCall, remove_network,
}
use docker_cloud_manager.Container.Action.{command}
use docker_cloud_manager.Container.Action.Keeps.{on-keeps, query-keeps, docker-keeps}
use docker_cloud_manager.Container.Worker.{
  normalize_container_runtime_error, is_permanent_container_queue_error, mark_container_error,
  fail_queued_lifecycle, ensure_create_operation_running, requeue_queued_create_if_retryable,
  requeued, requeue_or_fail, engine_failed, with_container, fail_with,
  cleanup_user_network_if_unused, owned_by,
}
use docker_cloud_manager.Container.Worker.Settled.{
  IsAt, status_of, IsSettled, finished, gave_up, retried, complete-IsAt, requeue-IsAt, spare-IsAt,
}

-- Where the operation is put back for an error, the message is delivered again after it.
abbrev pub IsKept : Err → Type 0
IsKept e =
    (is_permanent_container_queue_error e && not (not (is e timeout) && not (is e unavailable)))
    ≡ false

-- Whether a message is delivered again does not change when a timeout of the context is named.
pub permanent-normalize :
    (e : Err)
    → is_permanent_container_queue_error e ≡ false
    → is_permanent_container_queue_error (normalize_container_runtime_error e) ≡ false
unfolding is_permanent_container_queue_error normalize_container_runtime_error is same
permanent-normalize e h = ground arith

module _ {F : Type 0} (env : Env) (cfg : SystemConfig F) (steady : (n : ℕ) → env.db_fault n ≡ none)
    (foreign_faults : (n : ℕ) (e : Err)
      → env.docker_fault n ≡ some e
      → is_permanent_container_queue_error e ≡ false)
    (k : ℕ) where
  abbrev pub IsRunning : World → Type 0
  IsRunning w = IsAt k OperationStatus.running w

  pub on-IsSettled :
      {T : Type 0} (call : Action T) (failed : Err → Action (Unit {0}))
      (next : T → Action (Unit {0})) (w : World)
      → IsRunning (call w).1
      → ((e : Err) (w' : World) → call w ≡ (err e, w') → IsRunning w' → IsSettled k (failed e w'))
      → ((v : T) (w' : World) → IsRunning w' → IsSettled k (next v w'))
      → IsSettled k (on call failed next w)
  on-IsSettled {T} call failed next w h bad good = go (call w) refl h
    where
      go : (r : Result T × World) → call w ≡ r → IsRunning r.1 → IsSettled k (go_on failed next r)
      go (err e, w') same there = bad e w' same there
      go (ok v, w') same there = good v w' there

  pub query-IsRunning :
      {T : Type 0} (read : Db → Result T) (w : World) → IsRunning w → IsRunning (query env read w).1
  unfolding query
  query-IsRunning read w h = rw (steady w.db_calls, query) h

  pub docker-IsAt :
      {T : Type 0} (call : DockerCall) (answer : ℕ → T) (s : OperationStatus) (w : World)
      → IsAt k s w
      → IsAt k s (docker env call answer w).1
  unfolding docker
  docker-IsAt call answer s w h = elim (Option-cases (env.docker_fault w.docker_calls)) [
    | inl p ↦ rw (p, docker) h
    | inr (e, p) ↦ rw (p, docker) h
  ]

  pub cleanup-IsAt :
      (owner_id : ℕ) (s : OperationStatus) (w : World)
      → IsAt k s w
      → IsAt k s (cleanup_user_network_if_unused env cfg owner_id w).1
  unfolding cleanup_user_network_if_unused
  cleanup-IsAt owner_id s w h =
      let at : Db → Type 0 =
        λ db. status_of (find_where (has_operation_id k) db.operations) ≡ some s in
      on-keeps env at (query env (λ db. ok (any (owned_by owner_id) db.containers))) _ _ w
        (query-keeps env at _ w h) (λ _ w' there. there)
        (λ used w' there. elim (Bool-cases used) [
          | inl p ↦ rw p there
          | inr n ↦ rw n (
              on-keeps env at (command env (remove_network owner_id)) _ _ w'
                (docker-keeps env at _ _ w' there) (λ _ w'' here. here) (λ _ w'' here. here))
        ])

  pub docker-permanent :
      {T : Type 0} (call : DockerCall) (answer : ℕ → T) (w w' : World) (e : Err)
      → docker env call answer w ≡ (err e, w')
      → is_permanent_container_queue_error e ≡ false
  unfolding docker
  docker-permanent call answer w w' e h = elim (Option-cases (env.docker_fault w.docker_calls)) [
    | inl p ↦ ground arith
    | inr (f, p) ↦ foreign_faults w.docker_calls e (ground arith)
  ]

  pub fail_queued_lifecycle-IsAt :
      (container_id : ℕ) (previous : Status) (e : Err) (s : OperationStatus) (w : World)
      → IsAt k s w
      → IsAt k OperationStatus.failed (fail_queued_lifecycle env cfg k container_id previous e w).1
  unfolding fail_queued_lifecycle mark_status_error
  fail_queued_lifecycle-IsAt container_id previous e s w h =
      complete-IsAt env steady k s OperationStatus.failed _ _
        (spare-IsAt env steady k _ s w (container-operations container_id _) h)

  pub fail_with-IsSettled :
      (container_id : ℕ) (previous : Status) (e : Err) (s : OperationStatus) (w : World)
      → IsAt k s w
      → IsSettled k (fail_with env cfg k container_id previous e w)
  unfolding fail_with
  fail_with-IsSettled container_id previous e s w h =
      gave_up (fail_queued_lifecycle-IsAt container_id previous e s w h)

  requeued-of_ok :
      (r : Result (Unit {0}) × World) → r.0 ≡ ok tt → requeued env cfg r ≡ (ok true, r.1)
  unfolding requeued
  requeued-of_ok (ok _, w) h = refl
  requeued-of_ok (err e, w) h = cc

  -- What is put back has a message that is delivered again; what is not, is for `failing` to end.
  pub requeue_or-IsSettled :
      (e : Err) (failing : Action (Unit {0})) (w : World)
      → IsKept e
      → IsRunning w
      → IsSettled k (failing w)
      → IsSettled k (
          on
            (requeue_queued_create_if_retryable env cfg k e)
            raise
            (λ again. if again then raise e else failing)
            w)
  unfolding requeue_queued_create_if_retryable
  requeue_or-IsSettled e failing w kept h ends =
      elim (Bool-cases (not (is e timeout) && not (is e unavailable))) [
        | inl never ↦ rw never ends
        | inr may ↦ rw may (
            let (accepted, there) = requeue-IsAt env steady k (some e) w h in
            rw (requeued-of_ok (transact env (requeue_operation k (some e)) w) accepted)
              (retried there (ground arith)))
      ]

  pub requeue_or_fail-IsSettled :
      (container_id : ℕ) (previous : Status) (e : Err) (w : World)
      → is_permanent_container_queue_error e ≡ false
      → IsRunning w
      → IsSettled k (requeue_or_fail env cfg k container_id previous e w)
  unfolding requeue_or_fail fail_with
  requeue_or_fail-IsSettled container_id previous e w p h =
      requeue_or-IsSettled e (fail_with env cfg k container_id previous e) w (ground arith) h
        (fail_with-IsSettled container_id previous e OperationStatus.running w h)

  pub engine_failed-IsSettled :
      (container_id : ℕ) (previous : Status) (e : Err) (w : World)
      → is_permanent_container_queue_error e ≡ false
      → IsRunning w
      → IsSettled k (engine_failed env cfg k container_id previous e w)
  unfolding engine_failed mark_container_error mark_status_error
  engine_failed-IsSettled container_id previous e w p h = elim (Bool-cases (env.is_not_found e)) [
    | inl gone ↦ rw gone (
        gave_up (
          complete-IsAt env steady k OperationStatus.running OperationStatus.failed _ _ (
            spare-IsAt env steady k _ OperationStatus.running w
              (container-operations container_id _) h)))
    | inr other ↦ rw other (
        requeue_or_fail-IsSettled container_id previous (normalize_container_runtime_error e) w
          (permanent-normalize e p) h)
  ]

  pub with_container-IsSettled :
      (container_id : ℕ) (next : Container → Action (Unit {0})) (w : World)
      → IsRunning w
      → ((c : Container) (w' : World) → IsRunning w' → IsSettled k (next c w'))
      → IsSettled k (with_container env cfg k container_id next w)
  unfolding with_container
  with_container-IsSettled container_id next w h good =
      on-IsSettled (query env (get_by_id container_id)) _ next w
        (query-IsRunning (get_by_id container_id) w h)
        (λ e w' _ h'. gave_up (
          complete-IsAt env steady k OperationStatus.running OperationStatus.failed (some e) w' h'))
        good

  running_found :
      (ops : List ResourceOperation)
      → status_of (find_where (has_operation_id k) ops) ≡ some OperationStatus.running
      → (op : ResourceOperation) × (or_not_found (find_where (has_operation_id k) ops) ≡ ok op)
        × (is_running op.status ≡ true)
  running_found ops h = elim (Option-cases (find_where (has_operation_id k) ops)) [
    | inl missing ↦ cc missing
    | inr (op, found) ↦ (op, rw found, ground arith)
  ]

  -- While the operation is running the check lets the handler go on.
  ensure_running :
      (w : World)
      → IsRunning w
      → ensure_create_operation_running env cfg k w ≡ (ok tt, counted_db w)
  unfolding ensure_create_operation_running query get_operation_by_id
  ensure_running w h =
      let (op, found, live) = running_found w.db.operations h in
      rw (steady w.db_calls, query) (rw found (rw live))

  pub after_ensure-IsSettled :
      (next : Unit {0} → Action (Unit {0})) (w : World)
      → IsRunning w
      → IsSettled k (next tt (counted_db w))
      → IsSettled k (on (ensure_create_operation_running env cfg k) raise next w)
  after_ensure-IsSettled next w h s = rw (ensure_running w h) s

  done-IsSettled :
      (w : World)
      → IsRunning w
      → IsSettled k
          ((transact env (complete_operation k OperationStatus.done none) ≫ request_rebalance) w)
  done-IsSettled w h =
      finished (complete-IsAt env steady k OperationStatus.running OperationStatus.done none w h)

  -- A write of the container's row, after which the operation is done.
  pub write-IsSettled :
      (container_id : ℕ) (change : Container → Container) (previous : Status) (w : World)
      → IsRunning w
      → IsSettled k (
          on
            (transact env (update_container container_id change))
            (fail_with env cfg k container_id previous)
            (λ _. transact env (complete_operation k OperationStatus.done none) ≫ request_rebalance)
            w)
  write-IsSettled container_id change previous w h =
      on-IsSettled (transact env (update_container container_id change)) _ _ w
        (spare-IsAt env steady k _ OperationStatus.running w
          (container-operations container_id change) h)
        (λ e w' _ h'. fail_with-IsSettled container_id previous e OperationStatus.running w' h')
        (λ _ w' h'. done-IsSettled w' h')
