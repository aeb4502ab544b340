-- ===== src/Examples/Requests.antt =====
-- Scopes, tickets and the checks of capacity on concrete requests.
use docker_cloud_manager.Prelude.{
  ℕ, ◌+◌, ◌*◌, ◌≤◌, ◌<◌, ◌≡◌, ◌↔◌, refl, true, false, none, some, [], ◌∷◌, String, arith,
}
use docker_cloud_manager.Prelude.Int.{pos, ◌+ℤ◌, ◌≤ℤ◌, ◌<ℤ◌, add64, sub64, mul64}
use docker_cloud_manager.AppErrors.{sentinel, unauthorized}
use docker_cloud_manager.Result.{ok, err}
use docker_cloud_manager.AccessScope.{
  Scope, user_kind, require_scope, require_user_owner, require_owner_access, owner_filter,
  allows_owner, admits, MayAccess, require_owner_access_iff, owner_filter-allows_owner,
}
use docker_cloud_manager.Tickets.{
  TelemetryTicketClaims, TelemetryTicketStore, issue, consume, lookup, valid_ticket_token,
}
use docker_cloud_manager.Tickets.Laws.{
  issued, serve_all, AllLive, consume-consume, consume_iff, issue-AllLive, consume-issue,
}
use docker_cloud_manager.Admission.{
  Floats, UserInfo, Readings, check_capacity, check_user_quota, host_memory_pool,
  check_user_cpu_quota, ensure_disk_quota_available, used_disk_mb, check_host_capacity,
  check_host_cpu_capacity, ensure_host_disk_floor_projected, ensure_host_memory_capacity,
  ensure_host_memory_admission, ensure_host_cpu_capacity, ensure_host_cpu_admission, host_cpu_pool,
  with_builds, within_pool, within_quota, bytes_to_mb_rounded_up,
}
use docker_cloud_manager.Admission.Bounds.{
  bytes_to_mb_rounded_up_lem, check_capacity-memory, check_user_quota-wrapped,
}
use docker_cloud_manager.Examples.Settings.{settings}

abbrev pub ann : Scope
ann = record { kind = user_kind; user_id = 3; username = "ann"; role = "user" }

require_owner_access_iff_example :
    (require_owner_access (some ann) 3 ≡ ok tt) ↔ MayAccess (some ann) 3
require_owner_access_iff_example = require_owner_access_iff (some ann) 3

ann_is_owner : require_user_owner (some ann) ≡ ok 3
unfolding require_user_owner require_scope
ann_is_owner = refl

owner_filter-allows_owner_example : admits (owner_filter ann) 4 ≡ allows_owner ann 4
owner_filter-allows_owner_example = owner_filter-allows_owner ann 3 4 ann_is_owner

abbrev token : String
token = "abcdefghijklmnopqrstuvwxyz0123456789-_ABCDE"

token_is_valid : valid_ticket_token token ≡ true
unfolding valid_ticket_token
token_is_valid = refl

abbrev logs_of_web : TelemetryTicketClaims
logs_of_web = record {
  container_id = "web";
  stream_type = "logs";
  admin_route = false;
  scope = ann;
  expires_at = pos 0;
}

abbrev fresh_store : TelemetryTicketStore
fresh_store = record { tickets = []; ttl = pos 60 }

consume-issue_example :
    (consume (pos 30) token "web" "logs" false (issue token (pos 5) logs_of_web fresh_store)).0
    ≡ ok (record logs_of_web { expires_at = pos 5 +ℤ pos 60 })
unfolding ◌+ℤ◌
consume-issue_example =
    consume-issue token (pos 5) (pos 30) logs_of_web fresh_store token_is_valid (ground arith)

issue-AllLive_example : AllLive (pos 5) (issue token (pos 5) logs_of_web fresh_store).tickets
issue-AllLive_example = issue-AllLive token (pos 5) logs_of_web fresh_store (ground arith)

abbrev used_store : TelemetryTicketStore
used_store = record {
  tickets = (token, record logs_of_web { expires_at = pos 65 }) ∷ [];
  ttl = pos 60;
}

consume-consume_example :
    (consume (pos 31) token "web" "logs" false (
      serve_all
        (issued "other" (pos 30) logs_of_web ∷ [])
        (consume (pos 30) token "web" "logs" false used_store).1)).0
    ≡ err (sentinel unauthorized)
consume-consume_example =
    consume-consume (pos 30) (pos 31) token "web" "logs" "web" "logs" false false
      (issued "other" (pos 30) logs_of_web ∷ []) used_store (refl, tt)

consume_iff_example :
    ((consume (pos 30) token "web" "logs" false used_store).0
      ≡ ok (record logs_of_web { expires_at = pos 65 }))
    ↔ ((valid_ticket_token token ≡ true)
        × (lookup token used_store.tickets ≡ some (record logs_of_web { expires_at = pos 65 }))
        × (pos 30 <ℤ pos 65)
        × (logs_of_web.container_id ≡ "web")
        × (logs_of_web.stream_type ≡ "logs")
        × (logs_of_web.admin_route ≡ false))
consume_iff_example =
    consume_iff (pos 30) token "web" "logs" false used_store
      (record logs_of_web { expires_at = pos 65 })

abbrev pub whole : Floats ℕ
whole = record { is_not_positive = λ x. false; scale = λ n x. n }

abbrev pub bob : UserInfo ℕ
bob = record { quota_ram_mb = pos 4; quota_cpu = 1; quota_disk_mb = pos 100 }

abbrev pub readings : Readings ℕ
readings = record {
  lock = ok tt;
  user = ok bob;
  user_memory = ok (pos 1_048_576);
  user_cpu = ok (pos 100);
  image_mb = some (ok (pos 10));
  volume_bytes = none;
  system_memory = ok (pos 2_097_152);
  system_cpu = ok (pos 100);
  active_builds = none;
  total_memory = some (ok (pos 1_073_741_824));
  logical_cpus = some (ok (pos 4));
  free_disk = some (ok (pos 1_000_000));
}

capacity_is_free : check_capacity whole settings readings (pos 1_048_576) (pos 100) (pos 0) ≡ ok tt
unfolding check_capacity check_user_quota check_user_cpu_quota ensure_disk_quota_available
    used_disk_mb check_host_capacity check_host_cpu_capacity ensure_host_disk_floor_projected
    ensure_host_memory_capacity ensure_host_memory_admission ensure_host_cpu_capacity
    ensure_host_cpu_admission host_cpu_pool host_memory_pool with_builds within_pool within_quota
    add64 sub64 mul64
capacity_is_free = refl

check_capacity-memory_example :
    (1_048_576 + 1_048_576 ≤ 4 * 1_048_576)
    × (pos (2_097_152 + 1_048_576)
        ≤ℤ host_memory_pool whole settings
            (pos 1_073_741_824)
            settings.reserved_system_memory
            settings.overcommit_factor)
check_capacity-memory_example =
    check_capacity-memory whole settings readings bob refl 4 1_048_576 2_097_152 1_073_741_824
      1_048_576 (pos 100) (pos 0) refl refl refl refl (ground arith) (ground arith) (ground arith)
      capacity_is_free

check_user_quota-wrapped_example :
    check_user_quota readings.user readings.user_memory (pos 9_223_372_036_853_727_232) ≡ ok tt
check_user_quota-wrapped_example =
    check_user_quota-wrapped whole settings readings bob refl 4 1_048_576 9_223_372_036_853_727_232
      refl refl (ground arith) (ground arith) (ground arith) (ground arith)

bytes_to_mb_rounded_up_lem_example :
    (mb : ℕ) × (bytes_to_mb_rounded_up (pos 1_048_577) ≡ pos mb)
    × (1_048_577 ≤ mb * 1_048_576)
    × (mb * 1_048_576 < 1_048_577 + 1_048_576)
bytes_to_mb_rounded_up_lem_example = bytes_to_mb_rounded_up_lem 1_048_577 (ground arith)
