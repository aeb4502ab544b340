-- ===== src/Config/Validation.antt =====
-- backend/internal/core/config/validation.go: which settings are accepted. ValidateSystemConfig is one
-- sequence of checks, here in parts that stand in the order of the source.
pub mod Bounds
pub mod Accepted
use docker_cloud_manager.Prelude.{
  ℕ, ◌==◌, Bool, true, false, not, ◌&&◌, ◌||◌, List, [], ◌∷◌, String,
}
use docker_cloud_manager.Prelude.Int.{ℤ, pos, leb_ℤ, ltb_ℤ}
use docker_cloud_manager.Prelude.Strings.{trim_space, has_char, ends_with}
use docker_cloud_manager.AppErrors.{Err, foreign, ◌⧺◌}
use docker_cloud_manager.Result.{Result, ok, err, refuse, ◌>>◌}
use docker_cloud_manager.Config.{SystemConfig}
use docker_cloud_manager.Config.Checks.{wrapped, check_each}
use docker_cloud_manager.Validation.{Texts, domain_prefix, docker_size, positive_number_string}
use Prim.Native.Char.{Char, code}
use text.Mathlib.Text.{starts_with, ◌==◌ as str_eq}

-- Comparisons of a float64 with a whole number, which are false of NaN.
pub record Numbers (F : Type 0) : Type 0 where
  pub at_most : F → ℕ → Bool
  pub below : F → ℕ → Bool
  pub above : F → ℕ → Bool

abbrev pub min_reports_usage_snapshot_interval_seconds : ℤ
min_reports_usage_snapshot_interval_seconds = pos 60

abbrev pub max_reports_usage_snapshot_interval_seconds : ℤ
max_reports_usage_snapshot_interval_seconds = pos 86_400

abbrev pub is_empty {ℓ} : {A : Type ℓ} → List A → Bool
is_empty [] = true
is_empty (x ∷ xs) = false

-- a blank, a backquote or a slash of either kind
abbrev pub in_no_domain : Char → Bool
in_no_domain c = let n = code c in n == 32 || n == 96 || n == 47 || n == 92

-- NUL, CR or LF
abbrev pub is_control : Char → Bool
is_control c = code c == 0 || code c == 13 || code c == 10

-- a blank, a colon, a slash of either kind, or a control character
abbrev pub in_no_host : Char → Bool
in_no_host c = let n = code c in n == 32 || n == 58 || n == 47 || n == 92 || is_control c

abbrev pub is_dot : Char → Bool
is_dot c = code c == 46

module _ (texts : Texts) where
  abbrev pub check_prefix : String → Result (Unit {0})
  check_prefix prefix =
      refuse (str_eq prefix "") (foreign "reserved domain prefixes must not contain empty values")
      >> wrapped ("invalid reserved domain prefix " ⧺ texts.quote prefix ⧺ ": ")
          (domain_prefix prefix)

  abbrev pub check_prefixes : List String → List String → Result (Unit {0})
  check_prefixes =
      check_each texts.to_lower check_prefix (foreign "reserved domain prefixes must be unique")

  abbrev pub check_pattern : String → Result (Unit {0})
  check_pattern pattern =
      let trimmed = trim_space pattern in
      refuse (str_eq trimmed "")
        (foreign "blocked domain prefix patterns must not contain empty values")
      >> wrapped ("invalid blocked domain prefix pattern " ⧺ texts.quote pattern ⧺ ": ")
          (texts.compile ("^(?:" ⧺ trimmed ⧺ ")$"))

  abbrev pub check_patterns : List String → List String → Result (Unit {0})
  check_patterns =
      check_each trim_space check_pattern (foreign "blocked domain prefix patterns must be unique")

  abbrev pub host_name : String → String
  host_name given = texts.to_lower (trim_space given)

  abbrev pub check_host : String → Result (Unit {0})
  check_host given =
      let host = host_name given in
      refuse
        (str_eq host ""
          || has_char in_no_host host
          || starts_with host "."
          || ends_with is_dot host)
        (foreign "invalid git allowed host")

  abbrev pub check_hosts : List String → List String → Result (Unit {0})
  check_hosts = check_each host_name check_host (foreign "git allowed hosts must be unique")

abbrev pub check_command : String → Result (Unit {0})
check_command command =
    refuse (str_eq command "" || has_char is_control command)
      (foreign "telemetry allowed exec commands must not contain empty or control values")

abbrev pub check_commands : List String → List String → Result (Unit {0})
check_commands =
    check_each (λ command. command) check_command
      (foreign "telemetry allowed exec commands must be unique")

module _ {F : Type 0} (numbers : Numbers F) (texts : Texts) (cfg : SystemConfig F) where
  unfoldable pub validate_capacity : Result (Unit {0})
  validate_capacity =
      refuse (str_eq cfg.base_domain "" || has_char in_no_domain cfg.base_domain)
        (foreign "invalid base domain")
      >> refuse
          (leb_ℤ cfg.default_memory_reservation (pos 0) || ltb_ℤ cfg.reserved_system_memory (pos 0))
          (foreign "memory limits must be positive")
      >> refuse (numbers.at_most cfg.overcommit_factor 0 || numbers.above cfg.overcommit_factor 10)
          (foreign "overcommit factor must be between 0 and 10")
      >> refuse (leb_ℤ cfg.max_burst_multiplier (pos 0) || ltb_ℤ (pos 10) cfg.max_burst_multiplier)
          (foreign "max burst multiplier must be between 1 and 10")
      >> refuse (leb_ℤ cfg.default_cpu_reservation (pos 0) || ltb_ℤ cfg.reserved_system_cpu (pos 0))
          (foreign "cpu reservation limits must be positive")
      >> refuse
          (numbers.at_most cfg.cpu_overcommit_factor 0
            || numbers.above cfg.cpu_overcommit_factor 10)
          (foreign "cpu overcommit factor must be between 0 and 10")
      >> refuse
          (leb_ℤ cfg.max_cpu_burst_multiplier (pos 0)
            || ltb_ℤ (pos 10) cfg.max_cpu_burst_multiplier)
          (foreign "max cpu burst multiplier must be between 1 and 10")
      >> refuse (leb_ℤ cfg.container_cpu_period (pos 0))
          (foreign "container cpu period must be positive")
      >> refuse (leb_ℤ cfg.default_cpu_shares (pos 0) || leb_ℤ cfg.high_load_cpu_shares (pos 0))
          (foreign "cpu shares must be positive")
      >> refuse
          (leb_ℤ cfg.high_load_container_count (pos 0) || leb_ℤ cfg.container_stop_timeout (pos 0))
          (foreign "container counters and timeouts must be positive")

  unfoldable pub validate_logging_and_domains : Result (Unit {0})
  validate_logging_and_domains =
      wrapped "invalid max log size: " (docker_size cfg.max_log_size)
      >> wrapped "invalid max log files: " (positive_number_string cfg.max_log_files)
      >> wrapped "invalid container disk quota: " (docker_size cfg.container_disk_quota)
      >> check_prefixes texts [] cfg.reserved_domain_prefixes
      >> check_patterns texts [] cfg.blocked_domain_prefix_patterns

  unfoldable pub validate_containers_and_builds : Result (Unit {0})
  validate_containers_and_builds =
      refuse (leb_ℤ cfg.max_volumes_per_user (pos 0) || leb_ℤ cfg.max_containers_per_user (pos 0))
        (foreign "user resource limits must be positive")
      >> refuse (str_eq cfg.registry_api_url "" || str_eq cfg.registry_public_url "")
          (foreign "registry urls are required")
      >> refuse (ltb_ℤ cfg.container_ttl_hours (pos 0))
          (foreign "container ttl must not be negative")
      >> refuse (leb_ℤ cfg.container_pids_limit (pos 0))
          (foreign "container pids limit must be positive")
      >> refuse
          (numbers.below cfg.container_memory_swap_multiplier 1
            || numbers.above cfg.container_memory_swap_multiplier 10)
          (foreign "container memory swap multiplier must be between 1 and 10")
      >> refuse (str_eq cfg.proxy_network_name "") (foreign "proxy network name is required")
      >> refuse (str_eq cfg.registry_container_name "")
          (foreign "registry container name is required")
      >> refuse
          (leb_ℤ cfg.build_memory_bytes (pos 0)
            || (leb_ℤ cfg.build_cpu_quota (pos 0)
                || (leb_ℤ cfg.build_cpu_period (pos 0) || leb_ℤ cfg.build_pids_limit (pos 0))))
          (foreign "build resource limits must be positive")
      >> refuse
          (numbers.below cfg.build_memory_swap_multiplier 1
            || numbers.above cfg.build_memory_swap_multiplier 10)
          (foreign "build memory swap multiplier must be between 1 and 10")
      >> refuse (str_eq cfg.build_network_name "" || str_eq cfg.kaniko_image "")
          (foreign "build network name and kaniko image are required")
      >> refuse
          (leb_ℤ cfg.max_build_time_minutes (pos 0) || leb_ℤ cfg.max_concurrent_builds (pos 0))
          (foreign "build time and concurrency must be positive")
      >> refuse
          (leb_ℤ cfg.max_upload_size_bytes (pos 0)
            || (leb_ℤ cfg.max_archive_size_bytes (pos 0)
                || (leb_ℤ cfg.max_unpacked_size_bytes (pos 0)
                    || leb_ℤ cfg.max_build_log_size_bytes (pos 0))))
          (foreign "build size limits must be positive")

  unfoldable pub validate_workers : Result (Unit {0})
  validate_workers =
      refuse (leb_ℤ cfg.build_cancel_poll_interval_seconds (pos 0))
        (foreign "build cancel poll interval must be positive")
      >> refuse
          (leb_ℤ cfg.ttl_worker_interval_seconds (pos 0)
            || (leb_ℤ cfg.gc_worker_interval_minutes (pos 0)
                || leb_ℤ cfg.stale_build_timeout_minutes (pos 0)))
          (foreign "worker intervals and stale build timeout must be positive")
      >> refuse
          (leb_ℤ cfg.event_sync_interval_seconds (pos 0)
            || leb_ℤ cfg.event_reconnect_delay_seconds (pos 0))
          (foreign "event worker intervals must be positive")
      >> refuse
          (leb_ℤ cfg.build_outbox_interval_seconds (pos 0)
            || leb_ℤ cfg.build_outbox_batch_size (pos 0))
          (foreign "build outbox settings must be positive")
      >> refuse
          (leb_ℤ cfg.container_create_worker_count (pos 0)
            || (leb_ℤ cfg.container_create_max_attempts (pos 0)
                || leb_ℤ cfg.container_create_timeout_minutes (pos 0)))
          (foreign "container create worker settings must be positive")
      >> refuse
          (ltb_ℤ cfg.max_queued_container_creates_per_user (pos 0)
            || (leb_ℤ cfg.container_create_outbox_interval_seconds (pos 0)
                || leb_ℤ cfg.container_create_outbox_batch_size (pos 0)))
          (foreign "container create queue settings are invalid")
      >> refuse
          (ltb_ℤ cfg.reports_usage_snapshot_interval_seconds
              min_reports_usage_snapshot_interval_seconds
            || ltb_ℤ max_reports_usage_snapshot_interval_seconds
                cfg.reports_usage_snapshot_interval_seconds)
          (foreign "reports usage snapshot interval must be between 60 and 86400 seconds")
      >> refuse
          (ltb_ℤ cfg.max_staged_source_bytes_per_user (pos 0)
            || (ltb_ℤ cfg.max_queued_builds_per_user (pos 0)
                || (ltb_ℤ cfg.max_queued_compose_deploys_per_user (pos 0)
                    || ltb_ℤ cfg.host_min_free_disk_bytes (pos 0))))
          (foreign "resource safety limits must not be negative")

  unfoldable pub validate_compose_deploys : Result (Unit {0})
  validate_compose_deploys =
      refuse
        (leb_ℤ cfg.compose_upload_max_bytes (pos 0)
          || leb_ℤ cfg.compose_pipeline_timeout_minutes (pos 0))
        (foreign "compose upload and timeout settings must be positive")
      >> refuse
          (leb_ℤ cfg.compose_deploy_worker_count (pos 0)
            || (leb_ℤ cfg.compose_outbox_interval_seconds (pos 0)
                || (leb_ℤ cfg.compose_outbox_batch_size (pos 0)
                    || leb_ℤ cfg.compose_deploy_max_attempts (pos 0))))
          (foreign "compose queue and worker settings must be positive")
      >> refuse
          (leb_ℤ cfg.compose_build_poll_interval_seconds (pos 0)
            || (leb_ℤ cfg.compose_dependency_wait_timeout_minutes (pos 0)
                || leb_ℤ cfg.compose_dependency_poll_interval_seconds (pos 0)))
          (foreign "compose polling settings must be positive")
      >> refuse (leb_ℤ cfg.compose_coordinator_interval_seconds (pos 0))
          (foreign "compose coordinator interval must be positive")

  unfoldable pub validate_git_sources : Result (Unit {0})
  validate_git_sources =
      refuse
        (leb_ℤ cfg.git_clone_timeout_seconds (pos 0) || leb_ℤ cfg.git_max_repository_bytes (pos 0))
        (foreign "git source limits must be positive")
      >> refuse (cfg.git_sources_enabled && is_empty cfg.git_allowed_hosts)
          (foreign "git allowed hosts are required")
      >> check_hosts texts [] cfg.git_allowed_hosts

  unfoldable pub validate_telemetry : Result (Unit {0})
  validate_telemetry =
      refuse
        (leb_ℤ cfg.telemetry_max_log_tail_lines (pos 0)
          || (leb_ℤ cfg.telemetry_max_log_streams_per_user (pos 0)
              || leb_ℤ cfg.telemetry_max_terminal_sessions_per_user (pos 0)))
        (foreign "telemetry stream limits must be positive")
      >> refuse
          (leb_ℤ cfg.telemetry_terminal_idle_timeout_seconds (pos 0)
            || leb_ℤ cfg.telemetry_terminal_max_duration_seconds (pos 0))
          (foreign "telemetry terminal timeouts must be positive")
      >> refuse (is_empty cfg.telemetry_allowed_exec_commands)
          (foreign "telemetry allowed exec commands are required")
      >> check_commands [] cfg.telemetry_allowed_exec_commands
      >> refuse
          (ltb_ℤ cfg.telemetry_max_command_args (pos 0)
            || (leb_ℤ cfg.telemetry_max_command_arg_bytes (pos 0)
                || leb_ℤ cfg.telemetry_ws_read_limit_bytes (pos 0)))
          (foreign "telemetry command and websocket limits must be positive")

  unfoldable pub validate_system_config : Result (Unit {0})
  unfolding validate_capacity validate_logging_and_domains validate_containers_and_builds
      validate_workers validate_compose_deploys validate_git_sources validate_telemetry
  validate_system_config =
      validate_capacity >> validate_logging_and_domains >> validate_containers_and_builds
      >> validate_workers >> validate_compose_deploys >> validate_git_sources >> validate_telemetry
