-- ===== src/Config/Validation/Bounds.antt =====
-- What settings must satisfy (backend/internal/core/config/validation.go), said of the settings
-- themselves: bounds of numbers, forms of texts, and lists without duplicates.
use docker_cloud_manager.Prelude.{◌≡◌, false, ◌&&◌}
use docker_cloud_manager.Prelude.Int.{pos, ◌≤ℤ◌, ◌<ℤ◌}
use docker_cloud_manager.Prelude.Strings.{trim_space, has_char}
use docker_cloud_manager.Result.{ok}
use docker_cloud_manager.Config.{SystemConfig}
use docker_cloud_manager.Config.Checks.{EachIsAccepted}
use docker_cloud_manager.Config.Validation.{
  Numbers, min_reports_usage_snapshot_interval_seconds, max_reports_usage_snapshot_interval_seconds,
  is_empty, in_no_domain, check_prefix, check_pattern, host_name, check_host, check_command,
}
use docker_cloud_manager.Validation.{Texts, docker_size, positive_number_string}
use text.Mathlib.Text.{◌==◌ as str_eq}

module _ {F : Type 0} (numbers : Numbers F) (texts : Texts) (cfg : SystemConfig F) where
  abbrev pub CapacityIsAccepted : Type 0
  CapacityIsAccepted =
      ((str_eq cfg.base_domain "" ≡ false) × (has_char in_no_domain cfg.base_domain ≡ false))
      × ((pos 0 <ℤ cfg.default_memory_reservation × (pos 0) ≤ℤ cfg.reserved_system_memory)
          × (((numbers.at_most cfg.overcommit_factor 0 ≡ false)
                × (numbers.above cfg.overcommit_factor 10 ≡ false))
              × ((pos 0 <ℤ cfg.max_burst_multiplier × cfg.max_burst_multiplier ≤ℤ (pos 10))
                  × ((pos 0 <ℤ cfg.default_cpu_reservation × (pos 0) ≤ℤ cfg.reserved_system_cpu)
                      × (((numbers.at_most cfg.cpu_overcommit_factor 0 ≡ false)
                            × (numbers.above cfg.cpu_overcommit_factor 10 ≡ false))
                          × ((pos 0 <ℤ cfg.max_cpu_burst_multiplier
                                × cfg.max_cpu_burst_multiplier ≤ℤ (pos 10))
                              × (pos 0 <ℤ cfg.container_cpu_period
                                  × ((pos 0 <ℤ cfg.default_cpu_shares
                                        × pos 0 <ℤ cfg.high_load_cpu_shares)
                                      × (pos 0 <ℤ cfg.high_load_container_count
                                          × pos 0 <ℤ cfg.container_stop_timeout)))))))))

  abbrev pub LoggingAndDomainsIsAccepted : Type 0
  LoggingAndDomainsIsAccepted =
      (docker_size cfg.max_log_size ≡ ok tt)
      × ((positive_number_string cfg.max_log_files ≡ ok tt)
          × ((docker_size cfg.container_disk_quota ≡ ok tt)
              × (EachIsAccepted texts.to_lower (check_prefix texts) cfg.reserved_domain_prefixes
                  × EachIsAccepted trim_space (check_pattern texts)
                      cfg.blocked_domain_prefix_patterns)))

  abbrev pub ContainersAndBuildsIsAccepted : Type 0
  ContainersAndBuildsIsAccepted =
      (pos 0 <ℤ cfg.max_volumes_per_user × pos 0 <ℤ cfg.max_containers_per_user)
      × (((str_eq cfg.registry_api_url "" ≡ false) × (str_eq cfg.registry_public_url "" ≡ false))
          × ((pos 0) ≤ℤ cfg.container_ttl_hours
              × (pos 0 <ℤ cfg.container_pids_limit
                  × (((numbers.below cfg.container_memory_swap_multiplier 1 ≡ false)
                        × (numbers.above cfg.container_memory_swap_multiplier 10 ≡ false))
                      × ((str_eq cfg.proxy_network_name "" ≡ false)
                          × ((str_eq cfg.registry_container_name "" ≡ false)
                              × ((pos 0 <ℤ cfg.build_memory_bytes
                                    × (pos 0 <ℤ cfg.build_cpu_quota
                                        × (pos 0 <ℤ cfg.build_cpu_period
                                            × pos 0 <ℤ cfg.build_pids_limit)))
                                  × (((numbers.below cfg.build_memory_swap_multiplier 1 ≡ false)
                                        × (numbers.above cfg.build_memory_swap_multiplier 10
                                            ≡ false))
                                      × (((str_eq cfg.build_network_name "" ≡ false)
                                            × (str_eq cfg.kaniko_image "" ≡ false))
                                          × ((pos 0 <ℤ cfg.max_build_time_minutes
                                                × pos 0 <ℤ cfg.max_concurrent_builds)
                                              × (pos 0 <ℤ cfg.max_upload_size_bytes
                                                  × (pos 0 <ℤ cfg.max_archive_size_bytes
                                                      × (pos 0 <ℤ cfg.max_unpacked_size_bytes
                                                          × pos 0
                                                            <ℤ cfg.max_build_log_size_bytes)))))))))))))

  abbrev pub WorkersIsAccepted : Type 0
  WorkersIsAccepted =
      pos 0 <ℤ cfg.build_cancel_poll_interval_seconds
      × ((pos 0 <ℤ cfg.ttl_worker_interval_seconds
            × (pos 0 <ℤ cfg.gc_worker_interval_minutes × pos 0 <ℤ cfg.stale_build_timeout_minutes))
          × ((pos 0 <ℤ cfg.event_sync_interval_seconds × pos 0 <ℤ cfg.event_reconnect_delay_seconds)
              × ((pos 0 <ℤ cfg.build_outbox_interval_seconds × pos 0 <ℤ cfg.build_outbox_batch_size)
                  × ((pos 0 <ℤ cfg.container_create_worker_count
                        × (pos 0 <ℤ cfg.container_create_max_attempts
                            × pos 0 <ℤ cfg.container_create_timeout_minutes))
                      × (((pos 0) ≤ℤ cfg.max_queued_container_creates_per_user
                            × (pos 0 <ℤ cfg.container_create_outbox_interval_seconds
                                × pos 0 <ℤ cfg.container_create_outbox_batch_size))
                          × ((min_reports_usage_snapshot_interval_seconds
                                  ≤ℤ cfg.reports_usage_snapshot_interval_seconds
                                × cfg.reports_usage_snapshot_interval_seconds
                                  ≤ℤ max_reports_usage_snapshot_interval_seconds)
                              × ((pos 0) ≤ℤ cfg.max_staged_source_bytes_per_user
                                  × ((pos 0) ≤ℤ cfg.max_queued_builds_per_user
                                      × ((pos 0) ≤ℤ cfg.max_queued_compose_deploys_per_user
                                          × (pos 0) ≤ℤ cfg.host_min_free_disk_bytes)))))))))

  abbrev pub ComposeDeploysIsAccepted : Type 0
  ComposeDeploysIsAccepted =
      (pos 0 <ℤ cfg.compose_upload_max_bytes × pos 0 <ℤ cfg.compose_pipeline_timeout_minutes)
      × ((pos 0 <ℤ cfg.compose_deploy_worker_count
            × (pos 0 <ℤ cfg.compose_outbox_interval_seconds
                × (pos 0 <ℤ cfg.compose_outbox_batch_size
                    × pos 0 <ℤ cfg.compose_deploy_max_attempts)))
          × ((pos 0 <ℤ cfg.compose_build_poll_interval_seconds
                × (pos 0 <ℤ cfg.compose_dependency_wait_timeout_minutes
                    × pos 0 <ℤ cfg.compose_dependency_poll_interval_seconds))
              × pos 0 <ℤ cfg.compose_coordinator_interval_seconds))

  abbrev pub GitSourcesIsAccepted : Type 0
  GitSourcesIsAccepted =
      (pos 0 <ℤ cfg.git_clone_timeout_seconds × pos 0 <ℤ cfg.git_max_repository_bytes)
      × ((cfg.git_sources_enabled && is_empty cfg.git_allowed_hosts) ≡ false
          × EachIsAccepted (host_name texts) (check_host texts) cfg.git_allowed_hosts)

  abbrev pub TelemetryIsAccepted : Type 0
  TelemetryIsAccepted =
      (pos 0 <ℤ cfg.telemetry_max_log_tail_lines
        × (pos 0 <ℤ cfg.telemetry_max_log_streams_per_user
            × pos 0 <ℤ cfg.telemetry_max_terminal_sessions_per_user))
      × ((pos 0 <ℤ cfg.telemetry_terminal_idle_timeout_seconds
            × pos 0 <ℤ cfg.telemetry_terminal_max_duration_seconds)
          × ((is_empty cfg.telemetry_allowed_exec_commands ≡ false)
              × (EachIsAccepted (λ command. command) check_command
                    cfg.telemetry_allowed_exec_commands
                  × ((pos 0) ≤ℤ cfg.telemetry_max_command_args
                      × (pos 0 <ℤ cfg.telemetry_max_command_arg_bytes
                          × pos 0 <ℤ cfg.telemetry_ws_read_limit_bytes)))))

  abbrev pub IsAccepted : Type 0
  IsAccepted =
      CapacityIsAccepted
      × (LoggingAndDomainsIsAccepted
          × (ContainersAndBuildsIsAccepted
              × (WorkersIsAccepted
                  × (ComposeDeploysIsAccepted × (GitSourcesIsAccepted × TelemetryIsAccepted)))))
