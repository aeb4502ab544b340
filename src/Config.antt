-- ===== src/Config.antt =====
-- backend/internal/core/config/system.go: the settings of the core service. An int and an int64
-- are integers; `F` is float64, which the model does not compute with.
pub mod Checks
pub mod Validation
pub mod Manager
use docker_cloud_manager.Prelude.{Bool, List, String}
use docker_cloud_manager.Prelude.Int.{ℤ}

pub record SystemConfig (F : Type 0) : Type 0 where
  pub base_domain : String
  pub default_memory_reservation : ℤ
  pub reserved_system_memory : ℤ
  pub overcommit_factor : F
  pub max_burst_multiplier : ℤ
  pub default_cpu_reservation : ℤ
  pub reserved_system_cpu : ℤ
  pub cpu_overcommit_factor : F
  pub max_cpu_burst_multiplier : ℤ
  pub container_cpu_period : ℤ
  pub default_cpu_shares : ℤ
  pub high_load_cpu_shares : ℤ
  pub high_load_container_count : ℤ
  pub container_stop_timeout : ℤ
  pub max_log_size : String
  pub max_log_files : String
  pub container_disk_quota : String
  pub reserved_domain_prefixes : List String
  pub blocked_domain_prefix_patterns : List String
  pub max_volumes_per_user : ℤ
  pub max_containers_per_user : ℤ
  pub registry_api_url : String
  pub registry_public_url : String
  pub container_ttl_hours : ℤ
  pub container_pids_limit : ℤ
  pub container_memory_swap_multiplier : F
  pub proxy_network_name : String
  pub registry_container_name : String
  pub image_builds_enabled : Bool
  pub build_memory_bytes : ℤ
  pub build_cpu_quota : ℤ
  pub build_cpu_period : ℤ
  pub build_memory_swap_multiplier : F
  pub build_pids_limit : ℤ
  pub build_network_name : String
  pub kaniko_image : String
  pub max_build_time_minutes : ℤ
  pub max_concurrent_builds : ℤ
  pub max_upload_size_bytes : ℤ
  pub max_archive_size_bytes : ℤ
  pub max_unpacked_size_bytes : ℤ
  pub max_build_log_size_bytes : ℤ
  pub build_cancel_poll_interval_seconds : ℤ
  pub ttl_worker_interval_seconds : ℤ
  pub gc_worker_interval_minutes : ℤ
  pub stale_build_timeout_minutes : ℤ
  pub event_sync_interval_seconds : ℤ
  pub event_reconnect_delay_seconds : ℤ
  pub build_outbox_interval_seconds : ℤ
  pub build_outbox_batch_size : ℤ
  pub container_create_worker_count : ℤ
  pub container_create_max_attempts : ℤ
  pub container_create_timeout_minutes : ℤ
  pub max_queued_container_creates_per_user : ℤ
  pub container_create_outbox_interval_seconds : ℤ
  pub container_create_outbox_batch_size : ℤ
  pub reports_usage_snapshot_interval_seconds : ℤ
  pub max_staged_source_bytes_per_user : ℤ
  pub max_queued_builds_per_user : ℤ
  pub compose_upload_max_bytes : ℤ
  pub compose_pipeline_timeout_minutes : ℤ
  pub compose_deploy_worker_count : ℤ
  pub compose_outbox_interval_seconds : ℤ
  pub compose_outbox_batch_size : ℤ
  pub compose_deploy_max_attempts : ℤ
  pub max_queued_compose_deploys_per_user : ℤ
  pub compose_build_poll_interval_seconds : ℤ
  pub compose_dependency_wait_timeout_minutes : ℤ
  pub compose_dependency_poll_interval_seconds : ℤ
  pub compose_coordinator_interval_seconds : ℤ
  pub host_min_free_disk_bytes : ℤ
  pub git_sources_enabled : Bool
  pub git_allowed_hosts : List String
  pub git_clone_timeout_seconds : ℤ
  pub git_max_repository_bytes : ℤ
  pub telemetry_max_log_tail_lines : ℤ
  pub telemetry_max_log_streams_per_user : ℤ
  pub telemetry_max_terminal_sessions_per_user : ℤ
  pub telemetry_terminal_idle_timeout_seconds : ℤ
  pub telemetry_terminal_max_duration_seconds : ℤ
  pub telemetry_allowed_exec_commands : List String
  pub telemetry_max_command_args : ℤ
  pub telemetry_max_command_arg_bytes : ℤ
  pub telemetry_ws_read_limit_bytes : ℤ
