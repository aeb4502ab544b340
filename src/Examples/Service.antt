-- ===== src/Examples/Service.antt =====
-- Requests to backend/internal/core/service/container.go on a small database.
use docker_cloud_manager.Prelude.{◌≡◌, refl, some, List, [], ◌∷◌, ◌+◌, ◌*◌, ◌≤◌, arith}
use docker_cloud_manager.Prelude.Int.{pos, ◌≤ℤ◌, add64, sub64, mul64}
use docker_cloud_manager.AppErrors.{sentinel, not_found, timeout}
use docker_cloud_manager.Result.{ok, err}
use docker_cloud_manager.AccessScope.{Scope, require_owner_access, require_scope, allows_owner}
use docker_cloud_manager.Admission.{
  check_user_quota, check_user_cpu_quota, ensure_disk_quota_available, used_disk_mb,
  check_host_capacity, check_host_cpu_capacity, ensure_host_disk_floor_projected,
  ensure_host_memory_capacity, ensure_host_memory_admission, ensure_host_cpu_capacity,
  ensure_host_cpu_admission, host_cpu_pool, host_memory_pool, with_builds, within_pool,
  within_quota,
}
use docker_cloud_manager.Container.Store.{get_by_id, insert_resource_operation, insert_outbox}
use docker_cloud_manager.Container.Queue.{queue_container_operation}
use docker_cloud_manager.Container.Action.{World, transact, query}
use docker_cloud_manager.Container.Requests.{
  NewIds, stop, start, request, for_owner, if_present, check, queue_operation,
}
use docker_cloud_manager.Container.Requests.Outcome.{Outcome}
use docker_cloud_manager.Container.Requests.Queued.{stop-Outcome, start-Outcome, request-denied}
use docker_cloud_manager.Container.Requests.Checked.{start-checked}
use docker_cloud_manager.Container.Queue.Transactions.{Transaction, claim, requeue, run}
use docker_cloud_manager.Container.{Status, OperationKind}
use docker_cloud_manager.Examples.Queue.{web, idle_db}
use docker_cloud_manager.Examples.Settings.{settings}
use docker_cloud_manager.Examples.Requests.{ann, whole, readings, bob}
use docker_cloud_manager.Examples.Worker.{good_engine, busy_world}

abbrev owner : Scope
owner = record ann { user_id = 1 }

abbrev idle_world : World
idle_world = record busy_world { db = idle_db }

abbrev new_ids : NewIds
new_ids = record { operation_id = 11; outbox_id = 21 }

stop-Outcome_example :
    Outcome OperationKind.stop Status.stopping Status.exited 7 idle_world.db
      (stop good_engine settings whole (some owner) new_ids readings 7 idle_world)
stop-Outcome_example =
    stop-Outcome good_engine settings whole (some owner) new_ids readings 7 idle_world

start-Outcome_example :
    Outcome OperationKind.start Status.starting Status.running 7 idle_world.db
      (start good_engine settings whole (some owner) new_ids readings 7 idle_world)
start-Outcome_example =
    start-Outcome good_engine settings whole (some owner) new_ids readings 7 idle_world

start_accepted :
    (start good_engine settings whole (some owner) new_ids readings 7 idle_world).0 ≡ ok tt
unfolding start for_owner if_present check queue_operation queue_container_operation
    insert_resource_operation insert_outbox get_by_id transact query require_owner_access
    require_scope allows_owner check_user_quota check_user_cpu_quota ensure_disk_quota_available
    used_disk_mb check_host_capacity check_host_cpu_capacity ensure_host_disk_floor_projected
    ensure_host_memory_capacity ensure_host_memory_admission ensure_host_cpu_capacity
    ensure_host_cpu_admission host_cpu_pool host_memory_pool with_builds within_pool within_quota
    add64 sub64 mul64
start_accepted = refl

start-checked_example :
    (1_048_576 + 64 ≤ 4 * 1_048_576)
    × (pos (100 + 100) ≤ℤ pos 1000)
    × (pos (2_097_152 + 64)
        ≤ℤ host_memory_pool whole settings
            (pos 1_073_741_824)
            settings.reserved_system_memory
            settings.overcommit_factor)
    × (check_host_cpu_capacity whole settings readings (pos 100) ≡ ok tt)
    × (ensure_disk_quota_available readings.user readings.image_mb readings.volume_bytes ≡ ok tt)
    × (ensure_host_disk_floor_projected readings.free_disk settings.host_min_free_disk_bytes (pos 0)
        ≡ ok tt)
start-checked_example =
    start-checked good_engine settings whole (some owner) new_ids readings bob refl 7 idle_world web
      4 1_048_576 100 2_097_152 1_073_741_824 64 100 refl refl refl refl refl refl refl
      (ground arith) (ground arith) (ground arith) (ground arith) refl start_accepted

ann_is_denied : require_owner_access (some ann) 1 ≡ err (sentinel not_found)
unfolding require_owner_access require_scope allows_owner
ann_is_denied = refl

request-denied_example :
    ((request good_engine settings whole (some ann) new_ids readings 7 "stop" idle_world).1.db
      ≡ idle_world.db)
    × ((request good_engine settings whole (some ann) new_ids readings 7 "stop" idle_world).1.log
        ≡ idle_world.log)
request-denied_example =
    request-denied good_engine settings whole (some ann) new_ids readings 7 "stop" idle_world web
      (sentinel not_found) refl ann_is_denied

-- Between a request and its delivery, a worker takes the operation and puts it back.
abbrev between : List Transaction
between = claim 11 (pos 5) ∷ requeue 11 (some (sentinel timeout)) ∷ []

abbrev after_stop : World
after_stop = record idle_world {
  db =
      run between (stop good_engine settings whole (some owner) new_ids readings 7 idle_world).1.db;
}

abbrev after_start : World
after_start = record idle_world {
  db =
      run between
        (start good_engine settings whole (some owner) new_ids readings 7 idle_world).1.db;
}
