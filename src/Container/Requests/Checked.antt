-- ===== src/Container/Requests/Checked.antt =====
-- What a start that backend/internal/core/service/container.go accepts has been checked for.
use docker_cloud_manager.Prelude.{
  ℕ, ◌+◌, ◌*◌, ◌^◌, ◌≤◌, ◌<◌, ◌≡◌, refl, Option, some, inl, inr, Bool-cases, Option-cases,
}
use docker_cloud_manager.Prelude.Int.{pos, ◌≤ℤ◌}
use docker_cloud_manager.Result.{Result, ok, err}
use docker_cloud_manager.Config.{SystemConfig}
use docker_cloud_manager.AccessScope.{Scope, require_owner_access}
use docker_cloud_manager.Admission.{
  Floats, UserInfo, Readings, host_memory_pool, check_host_cpu_capacity,
  ensure_disk_quota_available, ensure_host_disk_floor_projected,
}
use docker_cloud_manager.Admission.Bounds.{memory-quota, memory-host, cpu-quota}
use docker_cloud_manager.Container.{Container}
use docker_cloud_manager.Container.Store.{get_by_id, find_where, has_container_id}
use docker_cloud_manager.Container.Action.{Env, World, Action, query, counted_db}
use docker_cloud_manager.Container.Requests.{
  NewIds, is_missing, or_default, for_owner, if_present, check, start,
}
use docker_cloud_manager.Container.Requests.Outcome.{Result-cases}
use text.Mathlib.Text.{◌==◌ as str_eq}

check-accepted :
    (r : Result (Unit {0})) (next : Action (Unit {0})) (w : World)
    → (check r next w).0 ≡ ok tt
    → (r ≡ ok tt) × ((next w).0 ≡ ok tt)
unfolding check
check-accepted (err e) next w h = absurd ((λ (c : ⊥). c) cc)
check-accepted (ok _) next w h = (refl, h)

module _ {F : Type 0} (env : Env) (cfg : SystemConfig F) (floats : Floats F)
    (context : Option Scope) (ids : NewIds) (readings : Readings F) where
  if_present-accepted :
      (c : Container) (next : Action (Unit {0})) (w : World)
      → (if_present env cfg floats context ids readings c next w).0 ≡ ok tt
      → (next w).0 ≡ ok tt
  unfolding if_present
  if_present-accepted c next w h = elim (Bool-cases (is_missing c.status)) [
    | inl p ↦ let e = rw p at h in absurd ((λ (c : ⊥). c) cc)
    | inr n ↦ elim (Bool-cases (str_eq c.docker_id "")) [
      | inl empty ↦ let e = rw empty at (rw n at h) in absurd ((λ (c : ⊥). c) cc)
      | inr given ↦ rw given at (rw n at h)
    ]
  ]

  for_owner-accepted :
      (container_id : ℕ) (next : Container → Action (Unit {0})) (w : World) (c : Container)
      → find_where (has_container_id container_id) w.db.containers ≡ some c
      → (for_owner env cfg floats context ids readings container_id next w).0 ≡ ok tt
      → (next c (counted_db w)).0 ≡ ok tt
  unfolding for_owner query get_by_id
  for_owner-accepted container_id next w c found h = elim (Option-cases (env.db_fault w.db_calls)) [
    | inr (f, p) ↦ let e = rw (p, query) at h in absurd ((λ (c : ⊥). c) cc)
    | inl p ↦ elim (Result-cases (require_owner_access context c.owner_id)) [
      | inr (f, denied) ↦
          let e = rw denied at (rw found at (rw (p, query) at h)) in absurd ((λ (c : ⊥). c) cc)
      | inl allowed ↦ rw allowed at (rw found at (rw (p, query) at h))
    ]
  ]

  -- A start that is accepted keeps the owner of the container within the quotas of memory and of
  -- processors, and what the host has reserved within its pool of memory, where the sums of the
  -- amounts fit into int64; and the host's processors, the owner's disk quota and the host's disk
  -- have passed their checks.
  pub start-checked :
      (u : UserInfo F) (known : readings.user ≡ ok u) (container_id : ℕ) (w : World) (c : Container)
      (mb used used_cpu reserved total requested requested_cpu : ℕ)
      → u.quota_ram_mb ≡ pos mb
      → readings.user_memory ≡ ok (pos used)
      → readings.user_cpu ≡ ok (pos used_cpu)
      → readings.system_memory ≡ ok (pos reserved)
      → readings.total_memory ≡ some (ok (pos total))
      → or_default c.base_memory_reservation cfg.default_memory_reservation ≡ pos requested
      → or_default c.base_cpu_reservation cfg.default_cpu_reservation ≡ pos requested_cpu
      → mb * 1_048_576 < 2 ^ 63
      → used + requested < 2 ^ 63
      → used_cpu + requested_cpu < 2 ^ 63
      → reserved + requested < 2 ^ 63
      → find_where (has_container_id container_id) w.db.containers ≡ some c
      → (start env cfg floats context ids readings container_id w).0 ≡ ok tt
      → (used + requested ≤ mb * 1_048_576)
        × (pos (used_cpu + requested_cpu) ≤ℤ floats.scale (pos 1000) u.quota_cpu)
        × (pos (reserved + requested)
            ≤ℤ host_memory_pool floats cfg
                (pos total)
                cfg.reserved_system_memory
                cfg.overcommit_factor)
        × (check_host_cpu_capacity floats cfg readings (pos requested_cpu) ≡ ok tt)
        × (ensure_disk_quota_available readings.user readings.image_mb readings.volume_bytes
            ≡ ok tt)
        × (ensure_host_disk_floor_projected readings.free_disk cfg.host_min_free_disk_bytes (pos 0)
            ≡ ok tt)
  unfolding start
  start-checked u known container_id w c mb used used_cpu reserved total requested requested_cpu
        quota uses uses_cpu res tot ask ask_cpu small sum sum_cpu host found accepted =
      let (locked, rest) = check-accepted readings.lock _ (counted_db w) (
        if_present-accepted c _ (counted_db w)
          (for_owner-accepted container_id _ w c found accepted)) in
      let (memory, rest) = check-accepted _ _ (counted_db w) rest in
      let (cpu, rest) = check-accepted _ _ (counted_db w) rest in
      let (pool, rest) = check-accepted _ _ (counted_db w) rest in
      let (cpus, rest) = check-accepted _ _ (counted_db w) rest in
      let (disk, rest) = check-accepted _ _ (counted_db w) rest in
      let (floor, rest) = check-accepted _ _ (counted_db w) rest in
      (
        memory-quota floats cfg readings u known mb used requested quota uses small sum
            (rw ask at memory),
        cpu-quota floats cfg readings u known used_cpu requested_cpu uses_cpu sum_cpu
            (rw ask_cpu at cpu),
        memory-host floats cfg readings u known reserved total requested res tot host
            (rw ask at pool),
        rw ask_cpu at cpus,
        disk,
        floor,
      )
