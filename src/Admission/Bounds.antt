-- ===== src/Admission/Bounds.antt =====
-- What the checks of backend/internal/core/service/admission.go and of its neighbours guarantee.
use docker_cloud_manager.Prelude.{
  ℕ, ◌+◌, ◌-◌, ◌*◌, ◌/◌, ◌^◌, ◌≤◌, ◌<◌, ◌≡◌, refl, ◌↔◌, some, arith, Bool-cases, inl, inr,
}
use docker_cloud_manager.Prelude.Int.{
  ℤ, pos, leb_ℤ, ◌≤ℤ◌, ◌<ℤ◌, add64, sub64, mul64, quot, add64_small,
}
use docker_cloud_manager.Result.{Result, ok, err, ◌>>=◌}
use docker_cloud_manager.Config.{SystemConfig}
use mathlib.Core.Path.{sym, ◌∙◌}
use docker_cloud_manager.Admission.{
  Floats, bytes_to_mb_rounded_up, within_pool, within_quota, check_capacity, Readings, UserInfo,
  check_user_quota, ensure_host_memory_admission, host_memory_pool, check_host_capacity,
  ensure_host_memory_capacity, check_user_cpu_quota, ensure_disk_quota_available,
}

-- A pool holds what is reserved and requested exactly where the check passes.
within_pool_iff :
    (pool : ℤ) (reserved requested : ℕ)
    → reserved + requested < 2 ^ 63
    → (within_pool pool (pos reserved) (pos requested) ≡ ok tt)
      ↔ ((pos 0 <ℤ pool) × (pos (reserved + requested) ≤ℤ pool))
unfolding within_pool add64
within_pool_iff pool reserved requested h = ground arith

-- The check of a quota passes exactly where the use stays within the quota.
within_quota_iff :
    (quota : ℤ) (used requested : ℕ)
    → used + requested < 2 ^ 63
    → (within_quota quota (pos used) (pos requested) ≡ ok tt) ↔ (pos (used + requested) ≤ℤ quota)
unfolding within_quota add64
within_quota_iff quota used requested h = ground arith

-- Where the sum leaves int64 the check of a quota passes, whatever the quota is.
within_quota-wrapped :
    (quota used requested : ℕ)
    → used < 2 ^ 63
    → requested < 2 ^ 63
    → 2 ^ 63 ≤ used + requested
    → within_quota (pos quota) (pos used) (pos requested) ≡ ok tt
unfolding within_quota add64
within_quota-wrapped quota used requested hu hr h = ground arith

mul64_small : (a b : ℕ) → a * b < 2 ^ 63 → mul64 (pos a) (pos b) ≡ pos (a * b)
unfolding mul64
mul64_small a b h = ground arith

sub64_small : (a b : ℕ) → b ≤ a → a < 2 ^ 63 → sub64 (pos a) (pos b) ≡ pos (a - b)
unfolding sub64
sub64_small a b h k = ground arith

quot-pos : (a : ℕ) → quot (pos a) 1_048_576 ≡ pos (a / 1_048_576)
unfolding quot
quot-pos a = ground arith

-- Bytes are rounded up to whole megabytes, where they are a megabyte below the end of int64.
pub bytes_to_mb_rounded_up_lem :
    (bytes : ℕ)
    → bytes + 1_048_576 < 2 ^ 63
    → (mb : ℕ) × (bytes_to_mb_rounded_up (pos bytes) ≡ pos mb)
      × (bytes ≤ mb * 1_048_576)
      × (mb * 1_048_576 < bytes + 1_048_576)
unfolding bytes_to_mb_rounded_up
bytes_to_mb_rounded_up_lem bytes h = elim (Bool-cases (leb_ℤ (pos bytes) (pos 0))) [
  | inl empty ↦ (0, rw empty, ground arith, ground arith)
  | inr some_bytes ↦ (
    (bytes + 1_048_575) / 1_048_576,
    rw some_bytes (
        rw (add64_small bytes 1_048_576 h) (
          rw (sub64_small (bytes + 1_048_576) 1 (ground arith) h)
            (rw (quot-pos (bytes + 1_048_576 - 1)) (ground arith)))),
    ground arith,
    ground arith,
  )
]

-- Both of two checks in a row have passed.
both_passed :
    (first second : Result (Unit {0}))
    → (first >>= λ _. second) ≡ ok tt
    → (first ≡ ok tt) × (second ≡ ok tt)
both_passed (err e) second h = cc
both_passed (ok _) second h = (refl, h)

module _ {F : Type 0} (floats : Floats F) (cfg : SystemConfig F) (r : Readings F) (u : UserInfo F)
    (known : r.user ≡ ok u) where
  -- The reads of the owner's use and of the host's.
  pub memory-quota :
      (mb used requested : ℕ)
      → u.quota_ram_mb ≡ pos mb
      → r.user_memory ≡ ok (pos used)
      → mb * 1_048_576 < 2 ^ 63
      → used + requested < 2 ^ 63
      → check_user_quota r.user r.user_memory (pos requested) ≡ ok tt
      → used + requested ≤ mb * 1_048_576
  unfolding check_user_quota
  memory-quota mb used requested quota uses small sum h =
      let in_bytes : mul64 (mul64 u.quota_ram_mb (pos 1024)) (pos 1024) ≡ pos (mb * 1_048_576) =
        rw quota (
          rw (mul64_small mb 1024 (ground arith))
            (rw (mul64_small (mb * 1024) 1024 (ground arith)) (ground arith))) in
      let same : check_user_quota r.user r.user_memory (pos requested)
          ≡ within_quota (pos (mb * 1_048_576)) (pos used) (pos requested) =
        rw known (rw uses (rw in_bytes refl)) in
      let passed = sym same ∙ h in
      ground (arith, within_quota_iff (pos (mb * 1_048_576)) used requested sum)

  pub cpu-quota :
      (used requested : ℕ)
      → r.user_cpu ≡ ok (pos used)
      → used + requested < 2 ^ 63
      → check_user_cpu_quota floats cfg r.user r.user_cpu (pos requested) ≡ ok tt
      → pos (used + requested) ≤ℤ floats.scale (pos 1000) u.quota_cpu
  unfolding check_user_cpu_quota
  cpu-quota used requested uses sum h =
      let quota = floats.scale (pos 1000) u.quota_cpu in
      let same : check_user_cpu_quota floats cfg r.user r.user_cpu (pos requested)
          ≡ within_quota quota (pos used) (pos requested) =
        rw known (rw uses refl) in
      let passed = sym same ∙ h in (within_quota_iff quota used requested sum).0 passed

  pub memory-host :
      (reserved total requested : ℕ)
      → r.system_memory ≡ ok (pos reserved)
      → r.total_memory ≡ some (ok (pos total))
      → reserved + requested < 2 ^ 63
      → check_host_capacity floats cfg r (pos requested) ≡ ok tt
      → pos (reserved + requested)
        ≤ℤ host_memory_pool floats cfg (pos total) cfg.reserved_system_memory cfg.overcommit_factor
  unfolding check_host_capacity ensure_host_memory_capacity ensure_host_memory_admission
  memory-host reserved total requested res tot sum h =
      let pool =
        host_memory_pool floats cfg (pos total) cfg.reserved_system_memory cfg.overcommit_factor in
      let same : check_host_capacity floats cfg r (pos requested)
          ≡ within_pool pool (pos reserved) (pos requested) =
        rw res (rw tot refl) in
      let passed = sym same ∙ h in ground (arith, within_pool_iff pool reserved requested sum)

  -- A request that passes all checks keeps its owner within the quota of memory, and what the
  -- host has reserved within its pool, where the sums of the amounts fit into int64.
  pub check_capacity-memory :
      (mb used reserved total requested : ℕ) (requested_cpu projected : ℤ)
      → u.quota_ram_mb ≡ pos mb
      → r.user_memory ≡ ok (pos used)
      → r.system_memory ≡ ok (pos reserved)
      → r.total_memory ≡ some (ok (pos total))
      → mb * 1_048_576 < 2 ^ 63
      → used + requested < 2 ^ 63
      → reserved + requested < 2 ^ 63
      → check_capacity floats cfg r (pos requested) requested_cpu projected ≡ ok tt
      → (used + requested ≤ mb * 1_048_576)
        × (pos (reserved + requested)
            ≤ℤ host_memory_pool floats cfg
                (pos total)
                cfg.reserved_system_memory
                cfg.overcommit_factor)
  unfolding check_capacity
  check_capacity-memory mb used reserved total requested cpu projected quota uses res tot small sum
        host h =
      let (locked, rest) = both_passed r.lock _ h in
      let (memory, rest) =
        both_passed (check_user_quota r.user r.user_memory (pos requested)) _ rest in
      let (cpus, rest) =
        both_passed (check_user_cpu_quota floats cfg r.user r.user_cpu cpu) _ rest in
      let (disk, rest) =
        both_passed (ensure_disk_quota_available r.user r.image_mb r.volume_bytes) _ rest in
      let (pool, rest) = both_passed (check_host_capacity floats cfg r (pos requested)) _ rest in
      (
        memory-quota mb used requested quota uses small sum memory,
        memory-host reserved total requested res tot host pool,
      )

  -- Where the sum of what is used and what is requested leaves int64, the check of the quota of
  -- memory passes, however small the quota is.
  pub check_user_quota-wrapped :
      (mb used requested : ℕ)
      → u.quota_ram_mb ≡ pos mb
      → r.user_memory ≡ ok (pos used)
      → mb * 1_048_576 < 2 ^ 63
      → used < 2 ^ 63
      → requested < 2 ^ 63
      → 2 ^ 63 ≤ used + requested
      → check_user_quota r.user r.user_memory (pos requested) ≡ ok tt
  unfolding check_user_quota
  check_user_quota-wrapped mb used requested quota uses small hu hr over = rw known (
      rw uses (
        rw quota (
          rw (mul64_small mb 1024 (ground arith)) (
            rw (mul64_small (mb * 1024) 1024 (ground arith))
              (within_quota-wrapped (mb * 1024 * 1024) used requested hu hr over)))))
