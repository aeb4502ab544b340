-- ===== src/Admission.antt =====
-- backend/internal/core/service: admission.go, container_admission.go, quota.go, resource_safety.go
-- and disk_usage.go, the checks of a request against the quotas of its owner and the resources of
-- the host. What the repositories and the host answer are arguments, errors included.
pub mod Bounds
use docker_cloud_manager.Prelude.{
  ℕ, ◌≡◌, Bool, true, false, not, ◌&&◌, ◌||◌, Option, none, some, String, if◌then◌else◌,
}
use docker_cloud_manager.Prelude.Int.{ℤ, pos, pos_part, ltb_ℤ, leb_ℤ, add64, sub64, mul64, quot}
use docker_cloud_manager.AppErrors.{Err, sentinel, new, internal, host_exhausted, quota_exceeded}
use docker_cloud_manager.Result.{Result, ok, err, ◌>>=◌}
use docker_cloud_manager.Config.{SystemConfig}

-- float64: the test `x <= 0` and `int64(float64(n) * x)`.
pub record Floats (F : Type 0) : Type 0 where
  pub is_not_positive : F → Bool
  pub scale : ℤ → F → ℤ

abbrev pub require : Bool → Err → Result (Unit {0})
require true e = ok tt
require false e = err e

-- `if n < 0 { n = 0 }`
abbrev pub at_least_0 : ℤ → ℤ
at_least_0 n = if ltb_ℤ n (pos 0) then pos 0 else n

-- `if n <= 0 { return 0 }`
unfoldable pub bytes_to_mb_rounded_up : ℤ → ℤ
bytes_to_mb_rounded_up bytes =
    if leb_ℤ bytes (pos 0)
    then pos 0
    else quot (sub64 (add64 bytes (pos 1_048_576)) (pos 1)) 1_048_576

-- The comparison that the host checks share.
unfoldable pub within_pool : ℤ → ℤ → ℤ → Result (Unit {0})
within_pool pool reserved requested =
    if leb_ℤ pool (pos 0)
    then err (sentinel host_exhausted)
    else require (not (ltb_ℤ pool (add64 reserved (at_least_0 requested))))
        (sentinel host_exhausted)

unfoldable pub ensure_host_disk_floor_projected : Option (Result ℤ) → ℤ → ℤ → Result (Unit {0})
ensure_host_disk_floor_projected none min_free projected = ok tt
ensure_host_disk_floor_projected (some free) min_free projected =
    if leb_ℤ min_free (pos 0)
    then ok tt
    else free >>= λ free_bytes.
        require (not (ltb_ℤ (sub64 free_bytes (at_least_0 projected)) min_free))
          (sentinel host_exhausted)

pub record UserInfo (F : Type 0) : Type 0 where
  pub quota_ram_mb : ℤ
  pub quota_cpu : F
  pub quota_disk_mb : ℤ

-- `used + requested > quota`
unfoldable pub within_quota : ℤ → ℤ → ℤ → Result (Unit {0})
within_quota quota used requested =
    require (not (ltb_ℤ quota (add64 used requested))) (sentinel quota_exceeded)

unfoldable pub check_user_quota :
    {F : Type 0} → Result (UserInfo F) → Result ℤ → ℤ → Result (Unit {0})
check_user_quota user used requested = user >>= λ u.
    used >>= λ n. within_quota (mul64 (mul64 u.quota_ram_mb (pos 1024)) (pos 1024)) n requested

unfoldable pub used_disk_mb : Result ℤ → Option (Result ℤ) → Result ℤ
used_disk_mb images none = images
used_disk_mb images (some volumes) =
    images >>= λ mb. volumes >>= λ bytes. ok (add64 mb (bytes_to_mb_rounded_up bytes))

unfoldable pub ensure_disk_quota_available :
    {F : Type 0} → Result (UserInfo F) → Option (Result ℤ) → Option (Result ℤ) → Result (Unit {0})
ensure_disk_quota_available user none volumes = ok tt
ensure_disk_quota_available user (some images) volumes = user >>= λ u.
    used_disk_mb images volumes >>= λ used.
    require (ltb_ℤ used u.quota_disk_mb) (new (sentinel quota_exceeded) "user disk quota exceeded")

-- An error that is logged and replaced by `apperrors.ErrInternal`.
abbrev pub or_internal : Result ℤ → Result ℤ
or_internal (ok n) = ok n
or_internal (err e) = err (sentinel internal)

-- What a check of capacity reads; `none` where the service has no such source.
pub record Readings (F : Type 0) : Type 0 where
  pub lock : Result (Unit {0})
  pub user : Result (UserInfo F)
  pub user_memory : Result ℤ
  pub user_cpu : Result ℤ
  pub image_mb : Option (Result ℤ)
  pub volume_bytes : Option (Result ℤ)
  pub system_memory : Result ℤ
  pub system_cpu : Result ℤ
  pub active_builds : Option (Result ℤ)
  pub total_memory : Option (Result ℤ)
  pub logical_cpus : Option (Result ℤ)
  pub free_disk : Option (Result ℤ)

module _ {F : Type 0} (floats : Floats F) (cfg : SystemConfig F) where
  unfoldable pub host_memory_pool : ℤ → ℤ → F → ℤ
  host_memory_pool total reserved factor =
      let available = sub64 total reserved in
      if floats.is_not_positive factor || leb_ℤ available (pos 0)
      then pos 0
      else floats.scale available factor

  unfoldable pub ensure_host_memory_admission : ℤ → ℤ → ℤ → Result (Unit {0})
  ensure_host_memory_admission total reserved requested =
      within_pool (host_memory_pool total cfg.reserved_system_memory cfg.overcommit_factor) reserved
        requested

  -- The host's metrics may be missing.
  unfoldable pub ensure_host_memory_capacity : Option (Result ℤ) → ℤ → ℤ → Result (Unit {0})
  ensure_host_memory_capacity none reserved requested = ok tt
  ensure_host_memory_capacity (some total) reserved requested =
      or_internal total >>= λ t. ensure_host_memory_admission t reserved requested

  unfoldable pub host_cpu_pool : ℤ → ℤ → F → ℤ
  host_cpu_pool cpus reserved factor =
      let available = sub64 (mul64 cpus (pos 1000)) reserved in
      if (leb_ℤ cpus (pos 0) || floats.is_not_positive factor) || leb_ℤ available (pos 0)
      then pos 0
      else floats.scale available factor

  unfoldable pub ensure_host_cpu_admission : ℤ → ℤ → ℤ → Result (Unit {0})
  ensure_host_cpu_admission cpus reserved requested =
      within_pool (host_cpu_pool cpus cfg.reserved_system_cpu cfg.cpu_overcommit_factor) reserved
        requested

  unfoldable pub ensure_host_cpu_capacity : Option (Result ℤ) → ℤ → ℤ → Result (Unit {0})
  ensure_host_cpu_capacity none reserved requested = ok tt
  ensure_host_cpu_capacity (some cpus) reserved requested =
      or_internal cpus >>= λ n. ensure_host_cpu_admission n reserved requested

  unfoldable pub build_cpu_millicores : ℤ
  build_cpu_millicores =
      if leb_ℤ cfg.build_cpu_quota (pos 0) || leb_ℤ cfg.build_cpu_period (pos 0)
      then pos 0
      else quot (mul64 cfg.build_cpu_quota (pos 1000)) (pos_part cfg.build_cpu_period)

  unfoldable pub check_user_cpu_quota : Result (UserInfo F) → Result ℤ → ℤ → Result (Unit {0})
  check_user_cpu_quota user used requested =
      user >>= λ u. used >>= λ n. within_quota (floats.scale (pos 1000) u.quota_cpu) n requested

  -- The builds that run count, where they are known.
  unfoldable pub with_builds : Option (Result ℤ) → ℤ → Result ℤ
  with_builds none reserved = ok reserved
  with_builds (some active) reserved =
      active >>= λ n. ok (add64 reserved (mul64 n build_cpu_millicores))

  unfoldable pub check_host_capacity : Readings F → ℤ → Result (Unit {0})
  check_host_capacity r requested = or_internal r.system_memory >>= λ reserved.
      ensure_host_memory_capacity r.total_memory reserved requested

  unfoldable pub check_host_cpu_capacity : Readings F → ℤ → Result (Unit {0})
  check_host_cpu_capacity r requested = or_internal r.system_cpu >>= λ reserved.
      with_builds r.active_builds reserved >>= λ total.
      ensure_host_cpu_capacity r.logical_cpus total requested

  unfoldable pub check_capacity : Readings F → ℤ → ℤ → ℤ → Result (Unit {0})
  check_capacity r requested_ram requested_cpu projected = r.lock >>= λ _.
      check_user_quota r.user r.user_memory requested_ram >>= λ _.
      check_user_cpu_quota r.user r.user_cpu requested_cpu >>= λ _.
      ensure_disk_quota_available r.user r.image_mb r.volume_bytes >>= λ _.
      check_host_capacity r requested_ram >>= λ _. check_host_cpu_capacity r requested_cpu >>= λ _.
      ensure_host_disk_floor_projected r.free_disk cfg.host_min_free_disk_bytes projected
