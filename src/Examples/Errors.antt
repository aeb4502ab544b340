-- ===== src/Examples/Errors.antt =====
-- The errors of backend/pkg/apperrors on concrete values.
use docker_cloud_manager.Prelude.{◌≡◌, refl, ◌↔◌, true, some, arith}
use docker_cloud_manager.AppErrors.{
  Sentinel, conflict, timeout, bad_request, deadline_exceeded, Err, sentinel, new, wrap, errorf,
  foreign, same, is, sentinel_text, as_structured, safe_message, code,
}
use docker_cloud_manager.AppErrors.Laws.{
  Carries, is_iff, HasKind, code_of_HasKind, safe_message-sentinel,
}

abbrev stop_timeout : Err
stop_timeout = wrap (sentinel timeout) "request timed out" (sentinel deadline_exceeded)

abbrev pull_failed : Err
pull_failed = wrap (sentinel bad_request) "image could not be pulled" (foreign "manifest unknown")

pull_code : code (some pull_failed) ≡ "bad_request"
unfolding code is same
pull_code = refl

pull_message : safe_message (some pull_failed) ≡ "image could not be pulled"
unfolding safe_message is same
pull_message = refl

is_iff_example : (is stop_timeout deadline_exceeded ≡ true) ↔ Carries deadline_exceeded stop_timeout
is_iff_example = is_iff stop_timeout deadline_exceeded

abbrev busy : Err
busy = errorf "queue: " (new (sentinel conflict) "resource operation is already in progress") ""

busy-HasKind : HasKind busy conflict
unfolding is
busy-HasKind t = ground arith

code_of_HasKind_example : code (some busy) ≡ "conflict"
code_of_HasKind_example = code_of_HasKind busy conflict busy-HasKind

safe_message-sentinel_example :
    (s : Sentinel) × (safe_message (some (foreign "pq: password authentication failed"))
      ≡ sentinel_text s)
unfolding as_structured is
safe_message-sentinel_example =
    safe_message-sentinel (foreign "pq: password authentication failed") refl refl
