-- ===== src/Config/Validation/Accepted.antt =====
-- ValidateSystemConfig (backend/internal/core/config/validation.go) accepts exactly the settings that
-- Config/Validation/Bounds describes.
use docker_cloud_manager.Prelude.{◌≡◌, ◌↔◌, ◌&&◌}
use docker_cloud_manager.Prelude.Int.{pos}
use docker_cloud_manager.Prelude.Strings.{has_char}
use docker_cloud_manager.Result.{ok}
use docker_cloud_manager.Config.{SystemConfig}
use docker_cloud_manager.Config.Checks.{
  same_iff, positive_iff, least_iff, ||_iff, >>_iff, refuse_iff, wrapped_iff, check_each_iff,
}
use docker_cloud_manager.Config.Validation.{
  Numbers, min_reports_usage_snapshot_interval_seconds, max_reports_usage_snapshot_interval_seconds,
  is_empty, in_no_domain, validate_capacity, validate_logging_and_domains,
  validate_containers_and_builds, validate_workers, validate_compose_deploys, validate_git_sources,
  validate_telemetry, validate_system_config,
}
use docker_cloud_manager.Validation.{Texts}
use text.Mathlib.Text.{◌==◌ as str_eq}
use docker_cloud_manager.Config.Validation.Bounds.{
  CapacityIsAccepted, LoggingAndDomainsIsAccepted, ContainersAndBuildsIsAccepted, WorkersIsAccepted,
  ComposeDeploysIsAccepted, GitSourcesIsAccepted, TelemetryIsAccepted, IsAccepted,
}

module _ {F : Type 0} (numbers : Numbers F) (texts : Texts) (cfg : SystemConfig F) where
  validate_capacity_iff :
      (validate_capacity numbers texts cfg ≡ ok tt) ↔ CapacityIsAccepted numbers texts cfg
  unfolding validate_capacity
  validate_capacity_iff =
      >>_iff
        (refuse_iff _ (
          ||_iff (same_iff (str_eq cfg.base_domain ""))
            (same_iff (has_char in_no_domain cfg.base_domain))))
        (>>_iff
          (refuse_iff _ (
            ||_iff (positive_iff cfg.default_memory_reservation)
              (least_iff cfg.reserved_system_memory (pos 0))))
          (>>_iff
            (refuse_iff _ (
              ||_iff (same_iff (numbers.at_most cfg.overcommit_factor 0))
                (same_iff (numbers.above cfg.overcommit_factor 10))))
            (>>_iff
              (refuse_iff _ (
                ||_iff (positive_iff cfg.max_burst_multiplier)
                  (least_iff (pos 10) cfg.max_burst_multiplier)))
              (>>_iff
                (refuse_iff _ (
                  ||_iff (positive_iff cfg.default_cpu_reservation)
                    (least_iff cfg.reserved_system_cpu (pos 0))))
                (>>_iff
                  (refuse_iff _ (
                    ||_iff (same_iff (numbers.at_most cfg.cpu_overcommit_factor 0))
                      (same_iff (numbers.above cfg.cpu_overcommit_factor 10))))
                  (>>_iff
                    (refuse_iff _ (
                      ||_iff (positive_iff cfg.max_cpu_burst_multiplier)
                        (least_iff (pos 10) cfg.max_cpu_burst_multiplier)))
                    (>>_iff (refuse_iff _ (positive_iff cfg.container_cpu_period)) (
                      >>_iff
                        (refuse_iff _ (
                          ||_iff (positive_iff cfg.default_cpu_shares)
                            (positive_iff cfg.high_load_cpu_shares)))
                        (refuse_iff _ (
                          ||_iff (positive_iff cfg.high_load_container_count)
                            (positive_iff cfg.container_stop_timeout)))))))))))

  validate_logging_and_domains_iff :
      (validate_logging_and_domains numbers texts cfg ≡ ok tt)
      ↔ LoggingAndDomainsIsAccepted numbers texts cfg
  unfolding validate_logging_and_domains
  validate_logging_and_domains_iff = >>_iff (wrapped_iff _ _) (
      >>_iff (wrapped_iff _ _)
        (>>_iff (wrapped_iff _ _) (>>_iff (check_each_iff _ _ _ _) (check_each_iff _ _ _ _))))

  validate_containers_and_builds_iff :
      (validate_containers_and_builds numbers texts cfg ≡ ok tt)
      ↔ ContainersAndBuildsIsAccepted numbers texts cfg
  unfolding validate_containers_and_builds
  validate_containers_and_builds_iff =
      >>_iff
        (refuse_iff _ (
          ||_iff (positive_iff cfg.max_volumes_per_user)
            (positive_iff cfg.max_containers_per_user)))
        (>>_iff
          (refuse_iff _ (
            ||_iff (same_iff (str_eq cfg.registry_api_url ""))
              (same_iff (str_eq cfg.registry_public_url ""))))
          (>>_iff (refuse_iff _ (least_iff cfg.container_ttl_hours (pos 0))) (
            >>_iff (refuse_iff _ (positive_iff cfg.container_pids_limit)) (
              >>_iff
                (refuse_iff _ (
                  ||_iff (same_iff (numbers.below cfg.container_memory_swap_multiplier 1))
                    (same_iff (numbers.above cfg.container_memory_swap_multiplier 10))))
                (>>_iff (refuse_iff _ (same_iff (str_eq cfg.proxy_network_name ""))) (
                  >>_iff (refuse_iff _ (same_iff (str_eq cfg.registry_container_name ""))) (
                    >>_iff
                      (refuse_iff _ (
                        ||_iff (positive_iff cfg.build_memory_bytes) (
                          ||_iff (positive_iff cfg.build_cpu_quota) (
                            ||_iff (positive_iff cfg.build_cpu_period)
                              (positive_iff cfg.build_pids_limit)))))
                      (>>_iff
                        (refuse_iff _ (
                          ||_iff (same_iff (numbers.below cfg.build_memory_swap_multiplier 1))
                            (same_iff (numbers.above cfg.build_memory_swap_multiplier 10))))
                        (>>_iff
                          (refuse_iff _ (
                            ||_iff (same_iff (str_eq cfg.build_network_name ""))
                              (same_iff (str_eq cfg.kaniko_image ""))))
                          (>>_iff
                            (refuse_iff _ (
                              ||_iff (positive_iff cfg.max_build_time_minutes)
                                (positive_iff cfg.max_concurrent_builds)))
                            (refuse_iff _ (
                              ||_iff (positive_iff cfg.max_upload_size_bytes) (
                                ||_iff (positive_iff cfg.max_archive_size_bytes) (
                                  ||_iff (positive_iff cfg.max_unpacked_size_bytes)
                                    (positive_iff cfg.max_build_log_size_bytes)))))))))))))))

  validate_workers_iff :
      (validate_workers numbers texts cfg ≡ ok tt) ↔ WorkersIsAccepted numbers texts cfg
  unfolding validate_workers
  validate_workers_iff =
      >>_iff (refuse_iff _ (positive_iff cfg.build_cancel_poll_interval_seconds)) (
        >>_iff
          (refuse_iff _ (
            ||_iff (positive_iff cfg.ttl_worker_interval_seconds) (
              ||_iff (positive_iff cfg.gc_worker_interval_minutes)
                (positive_iff cfg.stale_build_timeout_minutes))))
          (>>_iff
            (refuse_iff _ (
              ||_iff (positive_iff cfg.event_sync_interval_seconds)
                (positive_iff cfg.event_reconnect_delay_seconds)))
            (>>_iff
              (refuse_iff _ (
                ||_iff (positive_iff cfg.build_outbox_interval_seconds)
                  (positive_iff cfg.build_outbox_batch_size)))
              (>>_iff
                (refuse_iff _ (
                  ||_iff (positive_iff cfg.container_create_worker_count) (
                    ||_iff (positive_iff cfg.container_create_max_attempts)
                      (positive_iff cfg.container_create_timeout_minutes))))
                (>>_iff
                  (refuse_iff _ (
                    ||_iff (least_iff cfg.max_queued_container_creates_per_user (pos 0)) (
                      ||_iff (positive_iff cfg.container_create_outbox_interval_seconds)
                        (positive_iff cfg.container_create_outbox_batch_size))))
                  (>>_iff
                    (refuse_iff _ (
                      ||_iff
                        (least_iff cfg.reports_usage_snapshot_interval_seconds
                          min_reports_usage_snapshot_interval_seconds)
                        (least_iff max_reports_usage_snapshot_interval_seconds
                          cfg.reports_usage_snapshot_interval_seconds)))
                    (refuse_iff _ (
                      ||_iff (least_iff cfg.max_staged_source_bytes_per_user (pos 0)) (
                        ||_iff (least_iff cfg.max_queued_builds_per_user (pos 0)) (
                          ||_iff (least_iff cfg.max_queued_compose_deploys_per_user (pos 0))
                            (least_iff cfg.host_min_free_disk_bytes (pos 0))))))))))))

  validate_compose_deploys_iff :
      (validate_compose_deploys numbers texts cfg ≡ ok tt)
      ↔ ComposeDeploysIsAccepted numbers texts cfg
  unfolding validate_compose_deploys
  validate_compose_deploys_iff =
      >>_iff
        (refuse_iff _ (
          ||_iff (positive_iff cfg.compose_upload_max_bytes)
            (positive_iff cfg.compose_pipeline_timeout_minutes)))
        (>>_iff
          (refuse_iff _ (
            ||_iff (positive_iff cfg.compose_deploy_worker_count) (
              ||_iff (positive_iff cfg.compose_outbox_interval_seconds) (
                ||_iff (positive_iff cfg.compose_outbox_batch_size)
                  (positive_iff cfg.compose_deploy_max_attempts)))))
          (>>_iff
            (refuse_iff _ (
              ||_iff (positive_iff cfg.compose_build_poll_interval_seconds) (
                ||_iff (positive_iff cfg.compose_dependency_wait_timeout_minutes)
                  (positive_iff cfg.compose_dependency_poll_interval_seconds))))
            (refuse_iff _ (positive_iff cfg.compose_coordinator_interval_seconds))))

  validate_git_sources_iff :
      (validate_git_sources numbers texts cfg ≡ ok tt) ↔ GitSourcesIsAccepted numbers texts cfg
  unfolding validate_git_sources
  validate_git_sources_iff =
      >>_iff
        (refuse_iff _ (
          ||_iff (positive_iff cfg.git_clone_timeout_seconds)
            (positive_iff cfg.git_max_repository_bytes)))
        (>>_iff
          (refuse_iff _ (same_iff (cfg.git_sources_enabled && is_empty cfg.git_allowed_hosts)))
          (check_each_iff _ _ _ _))

  validate_telemetry_iff :
      (validate_telemetry numbers texts cfg ≡ ok tt) ↔ TelemetryIsAccepted numbers texts cfg
  unfolding validate_telemetry
  validate_telemetry_iff =
      >>_iff
        (refuse_iff _ (
          ||_iff (positive_iff cfg.telemetry_max_log_tail_lines) (
            ||_iff (positive_iff cfg.telemetry_max_log_streams_per_user)
              (positive_iff cfg.telemetry_max_terminal_sessions_per_user))))
        (>>_iff
          (refuse_iff _ (
            ||_iff (positive_iff cfg.telemetry_terminal_idle_timeout_seconds)
              (positive_iff cfg.telemetry_terminal_max_duration_seconds)))
          (>>_iff (refuse_iff _ (same_iff (is_empty cfg.telemetry_allowed_exec_commands))) (
            >>_iff (check_each_iff _ _ _ _) (
              refuse_iff _ (
                ||_iff (least_iff cfg.telemetry_max_command_args (pos 0)) (
                  ||_iff (positive_iff cfg.telemetry_max_command_arg_bytes)
                    (positive_iff cfg.telemetry_ws_read_limit_bytes)))))))

  -- ValidateSystemConfig returns nil exactly of the settings that satisfy each of these bounds and
  -- forms, with no duplicates in the four lists.
  pub validate_system_config_iff :
      (validate_system_config numbers texts cfg ≡ ok tt) ↔ IsAccepted numbers texts cfg
  unfolding validate_system_config
  validate_system_config_iff = >>_iff validate_capacity_iff (
      >>_iff validate_logging_and_domains_iff (
        >>_iff validate_containers_and_builds_iff (
          >>_iff validate_workers_iff (
            >>_iff validate_compose_deploys_iff
              (>>_iff validate_git_sources_iff (validate_telemetry_iff))))))
