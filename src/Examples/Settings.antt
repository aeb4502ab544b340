-- ===== src/Examples/Settings.antt =====
-- Settings for the examples, with the natural numbers in the place of float64.
use docker_cloud_manager.Prelude.{ℕ, true, [], ◌∷◌}
use docker_cloud_manager.Prelude.Int.{pos}
use docker_cloud_manager.Config.{SystemConfig}

abbrev pub settings : SystemConfig ℕ
settings = record {
  base_domain = "example.org";
  default_memory_reservation = pos 500_000;
  reserved_system_memory = pos 1_000_000;
  overcommit_factor = 1;
  max_burst_multiplier = pos 1;
  default_cpu_reservation = pos 100;
  reserved_system_cpu = pos 500;
  cpu_overcommit_factor = 1;
  max_cpu_burst_multiplier = pos 1;
  container_cpu_period = pos 1;
  default_cpu_shares = pos 1;
  high_load_cpu_shares = pos 1;
  high_load_container_count = pos 1;
  container_stop_timeout = pos 10;
  max_log_size = "10m";
  max_log_files = "3";
  container_disk_quota = "5g";
  reserved_domain_prefixes = "admin" ∷ [];
  blocked_domain_prefix_patterns = [];
  max_volumes_per_user = pos 1;
  max_containers_per_user = pos 2;
  registry_api_url = "x";
  registry_public_url = "x";
  container_ttl_hours = pos 1;
  container_pids_limit = pos 1;
  container_memory_swap_multiplier = 1;
  proxy_network_name = "proxy";
  registry_container_name = "x";
  image_builds_enabled = true;
  build_memory_bytes = pos 1;
  build_cpu_quota = pos 1;
  build_cpu_period = pos 1;
  build_memory_swap_multiplier = 1;
  build_pids_limit = pos 1;
  build_network_name = "x";
  kaniko_image = "x";
  max_build_time_minutes = pos 1;
  max_concurrent_builds = pos 1;
  max_upload_size_bytes = pos 1;
  max_archive_size_bytes = pos 1;
  max_unpacked_size_bytes = pos 1;
  max_build_log_size_bytes = pos 1;
  build_cancel_poll_interval_seconds = pos 1;
  ttl_worker_interval_seconds = pos 1;
  gc_worker_interval_minutes = pos 1;
  stale_build_timeout_minutes = pos 1;
  event_sync_interval_seconds = pos 1;
  event_reconnect_delay_seconds = pos 1;
  build_outbox_interval_seconds = pos 1;
  build_outbox_batch_size = pos 1;
  container_create_worker_count = pos 1;
  container_create_max_attempts = pos 3;
  container_create_timeout_minutes = pos 1;
  max_queued_container_creates_per_user = pos 1;
  container_create_outbox_interval_seconds = pos 1;
  container_create_outbox_batch_size = pos 1;
  reports_usage_snapshot_interval_seconds = pos 300;
  max_staged_source_bytes_per_user = pos 1;
  max_queued_builds_per_user = pos 1;
  compose_upload_max_bytes = pos 1;
  compose_pipeline_timeout_minutes = pos 1;
  compose_deploy_worker_count = pos 1;
  compose_outbox_interval_seconds = pos 1;
  compose_outbox_batch_size = pos 1;
  compose_deploy_max_attempts = pos 1;
  max_queued_compose_deploys_per_user = pos 1;
  compose_build_poll_interval_seconds = pos 1;
  compose_dependency_wait_timeout_minutes = pos 1;
  compose_dependency_poll_interval_seconds = pos 1;
  compose_coordinator_interval_seconds = pos 1;
  host_min_free_disk_bytes = pos 1_000;
  git_sources_enabled = true;
  git_allowed_hosts = [];
  git_clone_timeout_seconds = pos 1;
  git_max_repository_bytes = pos 1;
  telemetry_max_log_tail_lines = pos 1;
  telemetry_max_log_streams_per_user = pos 1;
  telemetry_max_terminal_sessions_per_user = pos 1;
  telemetry_terminal_idle_timeout_seconds = pos 1;
  telemetry_terminal_max_duration_seconds = pos 1;
  telemetry_allowed_exec_commands = [];
  telemetry_max_command_args = pos 1;
  telemetry_max_command_arg_bytes = pos 1;
  telemetry_ws_read_limit_bytes = pos 1;
}
