-- ===== src/Container/Worker/Expose.antt =====
-- backend/internal/core/service/container_create_async.go, executeQueuedExpose: a new container
-- with the route takes the place of the old one.
use docker_cloud_manager.Prelude.{
  ℕ, Bool, true, false, ◌||◌, Option, none, some, String, if◌then◌else◌,
}
use docker_cloud_manager.Prelude.Int.{ℤ, pos, leb_ℤ, add64}
use docker_cloud_manager.Prelude.Strings.{trim_prefix}
use docker_cloud_manager.AppErrors.{new, sentinel, ◌⧺◌, bad_request}
use docker_cloud_manager.Config.{SystemConfig}
use docker_cloud_manager.Container.{
  Status, Container, OperationStatus, ResourceOperation, LifecycleMessage,
}
use docker_cloud_manager.Container.Store.{update_status, update_docker_id_routing_and_generation}
use docker_cloud_manager.Container.Queue.{complete_operation}
use docker_cloud_manager.Container.Action.{
  Env, Action, return, raise, on, ◌≫◌, transact, docker, command, ContainerInspection,
  ContainerRuntimeSpec, start_container, stop_container, remove_container, inspect_container,
  create_container,
}
use docker_cloud_manager.Container.Worker.{
  resource_unavailable_error, normalize_container_runtime_error, ensure_create_operation_running,
  requeue_or_fail, engine_failed, with_container, fail_with,
}
use text.Mathlib.Text.{◌==◌ as str_eq}

-- `c.DockerGeneration + 1`, at least 2
abbrev pub next_generation : ℤ → ℤ
next_generation generation =
    let next = add64 generation (pos 1) in if leb_ℤ next (pos 1) then pos 2 else next

abbrev pub alias_of : Container → String
alias_of c = if str_eq c.network_alias "" then c.name else c.network_alias

abbrev pub is_running_status : Status → Bool
is_running_status Status.running = true
is_running_status _ = false

-- `targetStatus`
abbrev pub target_status : Status → Status
target_status Status.unset = Status.created
target_status Status.exposing = Status.created
target_status previous = previous

module _ {F : Type 0} (env : Env) (cfg : SystemConfig F) where
  abbrev pub project_id_of : Option ℕ → String
  project_id_of none = ""
  project_id_of (some id) = env.uuid_string id

  unfoldable pub expose_spec :
      ℕ → Container → LifecycleMessage → ContainerInspection → ContainerRuntimeSpec
  expose_spec container_id c msg inspect =
      let generation = next_generation c.docker_generation in
      record {
        container_id = env.uuid_string container_id;
        owner_id = env.uuid_string c.owner_id;
        project_id = project_id_of c.project_id;
        generation = generation;
        container_name = trim_prefix inspect.name "/" ⧺ "_g" ⧺ env.int_string generation;
        network_alias = alias_of c;
        image_name = inspect.image;
        network_name = "net_user_" ⧺ env.uuid_string c.owner_id;
        domain = msg.domain_prefix ⧺ "." ⧺ cfg.base_domain;
        internal_port = msg.internal_port;
        env_vars = inspect.env;
        memory_limit_bytes = inspect.memory_limit_bytes;
        memory_reservation = inspect.memory_reservation;
        cpu_shares = inspect.cpu_shares;
        cpu_quota = inspect.cpu_quota;
        cpu_period = inspect.cpu_period;
        pids_limit = cfg.container_pids_limit;
        proxy_network_name = cfg.proxy_network_name;
        volume_mounts = inspect.mounts;
        max_log_size = cfg.max_log_size;
        max_log_files = cfg.max_log_files;
        storage_quota = cfg.container_disk_quota;
        command = inspect.command;
        entrypoint = inspect.entrypoint;
        restart = inspect.restart;
        healthcheck = inspect.healthcheck;
      }

  -- What follows the engine's new container, up to the deferred removal of it.
  unfoldable pub stop_started : Bool → String → Action (Unit {0})
  stop_started true docker_id = command env (stop_container docker_id cfg.container_stop_timeout)
  stop_started false docker_id = return tt

  -- The database is told of the new container, and the old one is removed.
  unfoldable pub expose_switch :
      ResourceOperation → ℕ → LifecycleMessage → Container → String → Bool → Action (Unit {0})
  unfolding stop_started
  expose_switch op container_id msg c new_docker_id new_started =
      on
        (transact env (
          update_docker_id_routing_and_generation container_id new_docker_id msg.domain_prefix
            msg.internal_port (next_generation c.docker_generation)))
        (λ e.
          stop_started new_started new_docker_id
          ≫ fail_with env cfg op.id container_id msg.previous_status e)
        λ _.
          on (transact env (update_status container_id (target_status msg.previous_status)))
            (fail_with env cfg op.id container_id msg.previous_status)
            λ _.
              command env (remove_container c.docker_id)
              ≫ transact env (complete_operation op.id OperationStatus.done none)
              ≫ return tt

  unfoldable pub expose_start :
      ResourceOperation → ℕ → LifecycleMessage → Container → String → Action (Unit {0})
  expose_start op container_id msg c new_docker_id =
      if is_running_status msg.previous_status || is_running_status c.desired_status
      then on (command env (start_container new_docker_id))
          (λ e.
            requeue_or_fail env cfg op.id container_id msg.previous_status
              (normalize_container_runtime_error e))
          (λ _. expose_switch op container_id msg c new_docker_id true)
      else expose_switch op container_id msg c new_docker_id false

  -- The deferred removal of the new container where the rest fails.
  unfoldable pub expose_created :
      ResourceOperation → ℕ → LifecycleMessage → Container → String → Action (Unit {0})
  expose_created op container_id msg c new_docker_id =
      on (expose_start op container_id msg c new_docker_id)
        (λ e. command env (remove_container new_docker_id) ≫ raise e) return

  unfoldable pub execute_queued_expose :
      ResourceOperation → ℕ → LifecycleMessage → Action (Unit {0})
  execute_queued_expose op container_id msg = with_container env cfg op.id container_id λ c.
      if str_eq c.docker_id ""
      then fail_with env cfg op.id container_id msg.previous_status
          (resource_unavailable_error "container")
      else if str_eq msg.domain_prefix "" || leb_ℤ msg.internal_port (pos 0)
      then fail_with env cfg op.id container_id msg.previous_status
          (new (sentinel bad_request) "domain prefix and internal port are required")
      else on (ensure_create_operation_running env cfg op.id) raise λ _.
        on (docker env (inspect_container c.docker_id) env.inspection)
          (engine_failed env cfg op.id container_id msg.previous_status)
          λ inspect.
            on
              (docker env (create_container (expose_spec container_id c msg inspect))
                env.new_docker_id)
              (λ e.
                requeue_or_fail env cfg op.id container_id msg.previous_status
                  (normalize_container_runtime_error e))
              (expose_created op container_id msg c)
