-- ===== src/Examples/Events.antt =====
-- The event worker of backend/internal/core/service/event_worker.go on a small database.
use docker_cloud_manager.Prelude.{◌≡◌, refl, true, false, none, some, [], ◌∷◌}
use docker_cloud_manager.Prelude.Int.{pos}
use docker_cloud_manager.Container.{Status, Status-discrete, Container}
use docker_cloud_manager.Container.Store.{has_active_operation}
use docker_cloud_manager.Container.Action.{World, ContainerInspection, query, docker, transact}
use docker_cloud_manager.Container.Events.{
  ContainerEvent, observed_state_from_inspect, handle_event, observed_state_from_exit_event,
  adjust_expected_exit_state, update_container_status_from_event,
  update_observed_status_by_docker_id, get_by_docker_id, update_observed_status,
}
use docker_cloud_manager.Container.Events.Laws.{
  is_error, is_some, IsKept, observed_state_from_inspect-is_error, handle_event-IsKept,
}
use docker_cloud_manager.Container.Events.Sync.{
  sync_containers, sync_each, sync_container, sync_idle, sync_observed, same_status, get_non_exited,
  has_active_lifecycle,
}
use docker_cloud_manager.Container.Events.Sync.Laws.{IsBusy, sync_containers-IsBusy}
use docker_cloud_manager.Examples.Queue.{web}
use docker_cloud_manager.Examples.Worker.{good_engine, nothing_inspected, busy_world}

abbrev killed : ContainerInspection
killed = record nothing_inspected {
  state = record {
    running = false;
    status = "exited";
    exit_code = pos 137;
    oom_killed = true;
    health_status = none;
  };
}

abbrev meant_to_run : Container
meant_to_run = record web { status = Status.running; desired_status = Status.running }

observed_state_from_inspect-is_error_example :
    (is_error (observed_state_from_inspect meant_to_run killed).status ≡ true)
    × (is_some (observed_state_from_inspect meant_to_run killed).cause ≡ true)
observed_state_from_inspect-is_error_example =
    observed_state_from_inspect-is_error meant_to_run killed

abbrev other_died : ContainerEvent
other_died = record {
  type = "container";
  action = "die";
  docker_id = "zzz";
  container_id = none;
  generation = pos 0;
  exit_code = some (pos 1);
  oom_killed = false;
}

handle_event-IsKept_example : IsKept 7 web (handle_event good_engine other_died busy_world).1.db
handle_event-IsKept_example =
    handle_event-IsKept good_engine 7 web other_died busy_world (refl, λ other h. cc) refl

-- A container that was meant to stop is exited, whatever its code.
web_dies :
    (handle_event good_engine (record other_died { docker_id = "abc" }) busy_world).1.db.containers
    ≡ record web { last_exit_code = some (pos 1) } ∷ []
unfolding handle_event observed_state_from_exit_event update_container_status_from_event
    adjust_expected_exit_state update_observed_status_by_docker_id get_by_docker_id transact query
web_dies = refl

abbrev starting_world : World
starting_world = record busy_world {
  db = record (busy_world.db) {
    containers =
        record web { status = Status.starting }
        ∷ record web { id = 8; docker_id = "xyz"; status = Status.created }
        ∷ [];
  };
}

sync_containers-IsBusy_example :
    IsBusy 7
      (record web { status = Status.starting })
      (sync_containers good_engine starting_world).1.db
unfolding has_active_lifecycle
sync_containers-IsBusy_example =
    sync_containers-IsBusy good_engine 7 (record web { status = Status.starting }) starting_world
      ((λ h. refl), ((λ h. cc), tt)) (refl, refl)

-- The other container is found running.
sync_result :
    (sync_containers good_engine starting_world).1.db.containers
    ≡ record web { status = Status.starting }
      ∷ record web { id = 8; docker_id = "xyz"; status = Status.running }
      ∷ []
unfolding sync_containers sync_each sync_container sync_idle sync_observed same_status
    get_non_exited has_active_lifecycle has_active_operation query docker transact
    observed_state_from_inspect update_observed_status Status-discrete mathlib.Core.Bool.decide
sync_result = refl
