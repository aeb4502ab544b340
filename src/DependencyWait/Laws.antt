-- ===== src/DependencyWait/Laws.antt =====
-- What backend/internal/core/dependencywait/wait.go waits for, and that it ends.
use docker_cloud_manager.Prelude.{
  ◌≡◌, refl, ◌↔◌, Bool, true, false, not, ◌&&◌, Option, none, some, List, [], ◌∷◌, String,
  if◌then◌else◌, Bool-cases, Option-cases, inl, inr, any, arith,
}
use docker_cloud_manager.AppErrors.{Err}
use docker_cloud_manager.Result.{Result, ok, err}
use docker_cloud_manager.Container.{Healthcheck}
use docker_cloud_manager.Container.Action.{ContainerState, ContainerInspection}
use docker_cloud_manager.DependencyWait.{
  Condition, started, healthy, completed_successfully, other_condition, is_zero_code, evaluate,
  evaluate_inspection, evaluate_health, health_unknown, WaitEvent, context_done, timed_out, polled,
  settled, turn, wait_loop, wait, missing_container_error,
}
use text.Mathlib.Text.{◌==◌ as str_eq}

abbrev pub is_healthy : Option String → Bool
is_healthy none = false
is_healthy (some status) = str_eq status "healthy"

-- What each condition asks of the state of the container.
abbrev pub meets : Condition → ContainerState → Bool
meets started state = state.running
meets healthy state = is_healthy state.health_status
meets completed_successfully state =
    (not state.running && str_eq state.status "exited") && is_zero_code state.exit_code
meets (other_condition text) state = false

evaluate_health_iff :
    (state : ContainerState) (status : Option String)
    → (evaluate_health state status ≡ ok true) ↔ (is_healthy status ≡ true)
evaluate_health_iff state none = (λ h. cc, λ h. cc)
evaluate_health_iff state (some status) = ground arith

-- An inspection ends the wait well exactly where the state of the container meets the condition.
pub evaluate_inspection_iff :
    (inspection : ContainerInspection) (condition : Condition)
    → (evaluate_inspection inspection condition ≡ ok true)
      ↔ (meets condition inspection.state ≡ true)
unfolding evaluate_inspection evaluate
evaluate_inspection_iff inspection started = ground arith
evaluate_inspection_iff inspection completed_successfully = ground arith
evaluate_inspection_iff inspection (other_condition text) = (λ h. cc, λ h. cc)
evaluate_inspection_iff inspection healthy =
    by_health inspection.healthcheck inspection.state.health_status
  where
    by_health :
        (check : Option Healthcheck) (status : Option String)
        → ((if health_unknown check status
              then ok false
              else evaluate_health inspection.state status)
            ≡ ok true)
          ↔ (is_healthy status ≡ true)
    by_health (some check) none = (λ h. cc, λ h. cc)
    by_health none none = (λ h. cc, λ h. cc)
    by_health none (some status) = evaluate_health_iff inspection.state (some status)
    by_health (some check) (some status) = evaluate_health_iff inspection.state (some status)

module _ (is_not_found : Err → Bool) (missing_is_unavailable : Bool) (condition : Condition) where
  -- A poll that finds the condition met.
  abbrev pub is_met : WaitEvent → Bool
  is_met (polled (ok _) (ok inspection)) = meets condition inspection.state
  is_met _ = false

  settled_ok :
      (r : Result Bool)
      → settled is_not_found missing_is_unavailable condition r ≡ some (ok tt)
      → r ≡ ok true
  settled_ok (err e) h = cc
  settled_ok (ok true) h = refl
  settled_ok (ok false) h = cc

  turn-is_met :
      (event : WaitEvent)
      → turn is_not_found missing_is_unavailable condition event ≡ some (ok tt)
      → is_met event ≡ true
  unfolding turn
  turn-is_met (context_done e) h = cc
  turn-is_met timed_out h = cc
  turn-is_met (polled (err e) r) h = cc
  turn-is_met (polled (ok _) (err e)) h =
      elim (Bool-cases (missing_is_unavailable && is_not_found e)) [
        | inl p ↦ ground arith
        | inr n ↦ ground arith
      ]
  turn-is_met (polled (ok _) (ok inspection)) h =
      (evaluate_inspection_iff inspection condition).0
        (settled_ok (evaluate_inspection inspection condition) h)

  wait_loop-is_met :
      (events : List WaitEvent)
      → wait_loop is_not_found missing_is_unavailable condition events ≡ some (ok tt)
      → any is_met events ≡ true
  unfolding wait_loop
  wait_loop-is_met [] h = cc
  wait_loop-is_met (event ∷ events) h =
      elim (Option-cases (turn is_not_found missing_is_unavailable condition event)) [
        | inl goes_on ↦
            let later = wait_loop-is_met events (ground (arith, goes_on)) in ground arith
        | inr (r, ended) ↦ let now = turn-is_met event (ground (arith, ended)) in ground arith
      ]

  -- A wait that ends well has polled a container that met the condition.
  pub wait-is_met :
      (docker_id : String) (events : List WaitEvent)
      → wait is_not_found missing_is_unavailable condition docker_id events ≡ some (ok tt)
      → any is_met events ≡ true
  unfolding wait
  wait-is_met docker_id events h =
      elim (Bool-cases (str_eq docker_id "" && missing_is_unavailable)) [
        | inl p ↦ ground arith
        | inr n ↦ wait_loop-is_met events (ground arith)
      ]

  -- The end of the time to wait, or of the context.
  abbrev pub is_end : WaitEvent → Bool
  is_end (context_done e) = true
  is_end timed_out = true
  is_end (polled r s) = false

  end-turn :
      (event : WaitEvent)
      → is_end event ≡ true
      → (r : Result (Unit {0})) × (turn is_not_found missing_is_unavailable condition event
          ≡ some r)
  unfolding turn
  end-turn (context_done e) h = (err e, refl)
  end-turn timed_out h = (_, refl)
  end-turn (polled r s) h = cc

  wait_loop-ends :
      (events : List WaitEvent)
      → any is_end events ≡ true
      → (r : Result (Unit {0})) × (wait_loop is_not_found missing_is_unavailable condition events
          ≡ some r)
  unfolding wait_loop
  wait_loop-ends [] h = cc
  wait_loop-ends (event ∷ events) h =
      elim (Option-cases (turn is_not_found missing_is_unavailable condition event)) [
        | inr (r, ended) ↦ (r, rw ended)
        | inl goes_on ↦ elim (Bool-cases (is_end event)) [
          | inl last ↦ let (r, ended) = end-turn event last in (r, rw ended)
          | inr more ↦
              let (r, ended) = wait_loop-ends events (ground arith) in (r, rw goes_on ended)
        ]
      ]

  -- A wait of which the time or the context ends has a result.
  pub wait-ends :
      (docker_id : String) (events : List WaitEvent)
      → any is_end events ≡ true
      → (r : Result (Unit {0})) × (wait is_not_found missing_is_unavailable condition docker_id
            events
          ≡ some r)
  unfolding wait
  wait-ends docker_id events h = elim (Bool-cases (str_eq docker_id "" && missing_is_unavailable)) [
    | inl p ↦ (err missing_container_error, rw p)
    | inr n ↦ let (r, ended) = wait_loop-ends events h in (r, rw n ended)
  ]
