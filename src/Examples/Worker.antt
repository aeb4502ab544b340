-- ===== src/Examples/Worker.antt =====
-- The worker of backend/internal/core/service/container_create_async.go on a small database.
use docker_cloud_manager.Examples.Queue.{start_web, start_message, idle_db}
use docker_cloud_manager.Prelude.{◌⊎◌}
use docker_cloud_manager.Prelude.Int.{add64, mul64}
use docker_cloud_manager.Result.{ok}
use docker_cloud_manager.Examples.Queue.{web}
use docker_cloud_manager.Container.Store.{
  get_by_id, get_operation_by_id, update_status_and_ttl_deadline,
}
use docker_cloud_manager.Container.Queue.{claim_pending_operation, claim_found}
use docker_cloud_manager.Container.Action.{query, counted_db}
use docker_cloud_manager.Container.Worker.{
  with_container, ensure_create_operation_running, ttl_deadline,
}
use docker_cloud_manager.Container.Worker.Expose.{execute_queued_expose}
use docker_cloud_manager.Container.Worker.Dispatch.{
  execute_queued_lifecycle, execute_found, execute_claimed,
}
use docker_cloud_manager.Container.Worker.Settled.{IsAt}
use docker_cloud_manager.Container.Worker.Settled.Expose.{execute_queued_expose-IsSettled}
use docker_cloud_manager.Container.Worker.Settled.Dispatch.{
  execute_queued_lifecycle-IsSettled, execute_queued_lifecycle-delivered_again,
}
use docker_cloud_manager.Container.Store.{
  update_docker_id_routing_and_generation, update_status, mark_status_error,
}
use docker_cloud_manager.Container.Action.{
  remove_container, start_container, create_container, inspect_container,
}
use docker_cloud_manager.Container.Worker.{
  fail_with, fail_queued_lifecycle, restored, normalize_container_runtime_error,
}
use docker_cloud_manager.Container.Worker.Expose.{
  expose_created, expose_start, expose_switch, expose_spec, stop_started,
}
use docker_cloud_manager.AppErrors.{message}
use docker_cloud_manager.Examples.Settings.{settings}
use docker_cloud_manager.AppErrors.{is, same}
use docker_cloud_manager.Container.Action.{ContainerInspection}
use docker_cloud_manager.Container.Worker.Settled.Lifecycle.{HasForeignFaults}
use docker_cloud_manager.Prelude.{
  arith, Option, zero, suc, ℕ, ◌≡◌, refl, true, false, none, some, [], ◌∷◌,
}
use docker_cloud_manager.Prelude.Int.{pos}
use docker_cloud_manager.AppErrors.{Err, foreign}
use docker_cloud_manager.Container.{
  Status, OperationKind, OperationStatus, ResourceOperation, LifecycleMessage,
}
use docker_cloud_manager.Container.Queue.{complete_operation}
use docker_cloud_manager.Container.Action.{Env, World, transact, docker}
use docker_cloud_manager.Container.Worker.{execute_queued_start, is_permanent_container_queue_error}
use docker_cloud_manager.Container.Worker.Settled.{IsSettled}

-- An engine of which the first call runs into its deadline, and all others succeed.
abbrev pub slow_once : ℕ → Option Err
slow_once zero = some (foreign "no reply")
slow_once (suc n) = none

abbrev pub nothing_inspected : ContainerInspection
nothing_inspected = record {
  name = "/web_g1";
  image = "nginx:latest";
  env = [];
  command = [];
  entrypoint = [];
  memory_limit_bytes = pos 0;
  memory_reservation = pos 0;
  cpu_shares = pos 0;
  cpu_quota = pos 0;
  cpu_period = pos 0;
  restart = "";
  mounts = [];
  healthcheck = none;
  state = record {
    running = true;
    status = "running";
    exit_code = pos 0;
    oom_killed = false;
    health_status = none;
  };
}

-- The database answers, the engine's first call fails.
abbrev pub slow_engine : Env
slow_engine = record {
  db_fault = λ n. none;
  docker_fault = slow_once;
  publish_fault = λ n. none;
  publish_reaches = λ n. false;
  is_not_found = λ e. false;
  inspection = λ n. nothing_inspected;
  new_docker_id = λ n. "def";
  has_image = λ n. true;
  free_disk = none;
  unmarshal_env = λ s. ok [];
  now = pos 1000;
  uuid_string = λ n. "7";
  int_string = λ n. "2";
}

pub slow_engine-HasForeignFaults : HasForeignFaults slow_engine
unfolding is_permanent_container_queue_error is same
slow_engine-HasForeignFaults zero e h = ground arith
slow_engine-HasForeignFaults (suc n) e h = cc

abbrev pub running_web : ResourceOperation
running_web = record start_web { status = OperationStatus.running; attempts = 1 }

abbrev pub busy_world : World
busy_world = record {
  db = record idle_db { operations = running_web ∷ [] };
  db_calls = 0;
  docker_calls = 0;
  log = [];
  publish_calls = 0;
  queue = [];
  rebalance_requested = false;
}

abbrev expose_message : LifecycleMessage
expose_message = record start_message {
  operation = OperationKind.expose;
  domain_prefix = "web";
  internal_port = pos 80;
  previous_status = Status.running;
}

execute_queued_expose-IsSettled_example :
    IsSettled 11
      (execute_queued_expose slow_engine settings running_web 7 expose_message busy_world)
execute_queued_expose-IsSettled_example =
    execute_queued_expose-IsSettled slow_engine settings (λ n. refl) slow_engine-HasForeignFaults
      running_web 7 expose_message busy_world refl

abbrev queued_world : World
queued_world = record busy_world { db = record idle_db { operations = start_web ∷ [] } }

execute_queued_lifecycle-IsSettled_example :
    IsSettled 11 (execute_queued_lifecycle slow_engine settings 11 7 start_message queued_world)
    ⊎ IsAt 11 OperationStatus.failed
        (execute_queued_lifecycle slow_engine settings 11 7 start_message queued_world).1
execute_queued_lifecycle-IsSettled_example =
    execute_queued_lifecycle-IsSettled slow_engine settings (λ n. refl) slow_engine-HasForeignFaults
      7 start_message 11 queued_world refl

execute_queued_lifecycle-delivered_again_example :
    execute_queued_lifecycle slow_engine settings 11 7 start_message busy_world
    ≡ (ok tt, counted_db busy_world)
execute_queued_lifecycle-delivered_again_example =
    execute_queued_lifecycle-delivered_again slow_engine settings (λ n. refl)
      slow_engine-HasForeignFaults 7 start_message 11 OperationStatus.running busy_world refl refl

abbrev pub good_engine : Env
good_engine = record slow_engine { docker_fault = λ n. none }

-- A start that succeeds.
start_runs :
    (execute_queued_lifecycle good_engine settings 11 7 start_message queued_world).1.db
    ≡ record idle_db {
      containers =
          record web { status = Status.running; ttl_deadline = some (pos 3_600_000_001_000) } ∷ [];
      operations = record start_web { status = OperationStatus.done; attempts = 1 } ∷ [];
    }
unfolding execute_queued_lifecycle execute_found execute_claimed execute_queued_start transact query
    docker claim_pending_operation claim_found with_container get_by_id
    ensure_create_operation_running get_operation_by_id update_status_and_ttl_deadline ttl_deadline
    complete_operation add64 mul64
start_runs = refl

abbrev one_lost_write : ℕ → Option Err
one_lost_write (suc (suc (suc zero))) = some (foreign "connection reset")
one_lost_write _ = none

abbrev lost_write : Env
lost_write = record good_engine { db_fault = one_lost_write }

-- The status of an exposed container cannot be written: the row names the new container, which
-- is removed, while the old one stays.
expose_lost_write :
    ((execute_queued_expose lost_write settings running_web 7 expose_message
        busy_world).1.db.containers
      ≡ record web {
        status = Status.running;
        docker_id = "def";
        domain_prefix = "web";
        internal_port = pos 80;
        docker_generation = pos 2;
        last_error = some "connection reset";
      }
        ∷ [])
    × ((execute_queued_expose lost_write settings running_web 7 expose_message busy_world).1.log
        ≡ remove_container "def"
          ∷ start_container "def"
          ∷ create_container
              (expose_spec lost_write settings 7 web expose_message nothing_inspected)
          ∷ inspect_container "abc"
          ∷ [])
unfolding execute_queued_expose expose_created expose_start expose_switch expose_spec stop_started
    transact query docker with_container get_by_id ensure_create_operation_running
    get_operation_by_id update_docker_id_routing_and_generation update_status fail_with
    fail_queued_lifecycle mark_status_error restored normalize_container_runtime_error is same
    complete_operation add64 message
expose_lost_write = (refl, refl)
