-- ===== src/DependencyWait.antt =====
-- backend/internal/core/dependencywait/wait.go: waiting for the container of a dependency of a
-- compose project. What the loop meets is a list: a poll with its results, the end of the time to
-- wait, or the end of the context.
pub mod Laws
use docker_cloud_manager.Prelude.{
  ℕ, ◌≡◌, Bool, true, false, not, ◌&&◌, ◌||◌, Option, none, some, List, [], ◌∷◌, String,
  if◌then◌else◌,
}
use docker_cloud_manager.Prelude.Int.{ℤ, pos, leb_ℤ}
use docker_cloud_manager.AppErrors.{Err, new, sentinel, bad_request, conflict}
use docker_cloud_manager.Result.{Result, ok, err}
use docker_cloud_manager.Container.{Healthcheck}
use docker_cloud_manager.Container.Action.{ContainerState, ContainerInspection}
use text.Mathlib.Text.{◌==◌ as str_eq}

-- The conditions of backend/internal/core/model/compose.go, and any other text.
pub data Condition : Type 0 where
  started healthy completed_successfully : Condition
  other_condition : String → Condition

abbrev pub is_zero_code : ℤ → Bool
is_zero_code n = leb_ℤ n (pos 0) && leb_ℤ (pos 0) n

-- The state has failed: stopped, with a code other than zero.
abbrev pub has_failed : ContainerState → Bool
has_failed state = not state.running && not (is_zero_code state.exit_code)

abbrev pub no_healthcheck : Err
no_healthcheck =
    new (sentinel bad_request) "service_healthy requested, but no healthcheck defined for container"

abbrev pub evaluate_health : ContainerState → Option String → Result Bool
evaluate_health state none = err no_healthcheck
evaluate_health state (some status) =
    if str_eq status "healthy"
    then ok true
    else if str_eq status "unhealthy"
    then err (new (sentinel conflict) "dependency became unhealthy")
    else if has_failed state
    then err (new (sentinel conflict) "dependency exited before becoming healthy")
    else ok false

unfoldable pub evaluate : ContainerState → Condition → Result Bool
evaluate state healthy = evaluate_health state state.health_status
evaluate state completed_successfully =
    if not state.running && str_eq state.status "exited"
    then (if is_zero_code state.exit_code
        then ok true
        else err (new (sentinel conflict) "dependency exited with non-zero code"))
    else ok false
evaluate state started =
    if state.running
    then ok true
    else if has_failed state
    then err (new (sentinel conflict) "dependency failed to start")
    else ok false
evaluate state (other_condition text) =
    err (new (sentinel bad_request) "unsupported dependency condition")

abbrev health_unknown : Option Healthcheck → Option String → Bool
health_unknown (some check) none = true
health_unknown _ _ = false

unfoldable pub evaluate_inspection : ContainerInspection → Condition → Result Bool
evaluate_inspection inspection healthy =
    if health_unknown inspection.healthcheck inspection.state.health_status
    then ok false
    else evaluate inspection.state healthy
evaluate_inspection inspection condition = evaluate inspection.state condition

pub data WaitEvent : Type 0 where
  context_done : Err → WaitEvent
  timed_out : WaitEvent
  polled : Result (Unit {0}) → Result ContainerInspection → WaitEvent

abbrev pub missing_container_error : Err
missing_container_error =
    new (sentinel conflict) "container is missing in Docker and can only be deleted"

abbrev pub timeout_error : Err
timeout_error = new (sentinel conflict) "timeout waiting for dependency state"

module _ (is_not_found : Err → Bool) (missing_is_unavailable : Bool) (condition : Condition) where
  -- What ends the loop at an evaluation; `none` goes on.
  abbrev pub settled : Result Bool → Option (Result (Unit {0}))
  settled (err e) = some (err e)
  settled (ok true) = some (ok tt)
  settled (ok false) = none

  abbrev pub inspected : Result ContainerInspection → Option (Result (Unit {0}))
  inspected (err e) =
      if missing_is_unavailable && is_not_found e then some (err missing_container_error) else none
  inspected (ok inspection) = settled (evaluate_inspection inspection condition)

  -- One turn of the loop.
  unfoldable pub turn : WaitEvent → Option (Result (Unit {0}))
  turn (context_done e) = some (err e)
  turn timed_out = some (err timeout_error)
  turn (polled (err e) inspection) = some (err e)
  turn (polled (ok _) inspection) = inspected inspection

  abbrev pub or_next :
      Option (Result (Unit {0})) → Option (Result (Unit {0})) → Option (Result (Unit {0}))
  or_next (some r) next = some r
  or_next none next = next

  unfoldable pub wait_loop : List WaitEvent → Option (Result (Unit {0}))
  wait_loop [] = none
  wait_loop (event ∷ events) = or_next (turn event) (wait_loop events)

  -- `none` while it still waits.
  unfoldable pub wait : String → List WaitEvent → Option (Result (Unit {0}))
  wait docker_id events =
      if str_eq docker_id "" && missing_is_unavailable
      then some (err missing_container_error)
      else wait_loop events
