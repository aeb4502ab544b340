-- ===== src/Examples/Wait.antt =====
-- Waiting for a dependency, backend/internal/core/dependencywait/wait.go, on short sequences.
use docker_cloud_manager.Prelude.{◌≡◌, ◌↔◌, refl, Bool, true, false, none, some, List, [], ◌∷◌, any}
use docker_cloud_manager.Prelude.Int.{pos}
use docker_cloud_manager.AppErrors.{Err, foreign}
use docker_cloud_manager.Result.{Result, ok, err}
use docker_cloud_manager.Container.Action.{ContainerInspection}
use docker_cloud_manager.DependencyWait.{
  healthy, started, WaitEvent, timed_out, polled, wait, wait_loop, turn, evaluate_inspection,
  evaluate,
}
use docker_cloud_manager.DependencyWait.Laws.{
  meets, is_met, evaluate_inspection_iff, wait-is_met, wait-ends,
}
use docker_cloud_manager.Examples.Worker.{nothing_inspected}

abbrev still_created : ContainerInspection
still_created = record nothing_inspected {
  state = record {
    running = false;
    status = "created";
    exit_code = pos 0;
    oom_killed = false;
    health_status = none;
  };
}

abbrev starts_late : List WaitEvent
starts_late =
    polled (ok tt) (ok still_created)
    ∷ polled (ok tt) (err (foreign "no reply"))
    ∷ polled (ok tt) (ok nothing_inspected)
    ∷ []

abbrev never_found : Err → Bool
never_found e = false

starts_in_the_end : wait never_found true started "abc" starts_late ≡ some (ok tt)
unfolding wait wait_loop turn evaluate_inspection evaluate
starts_in_the_end = refl

wait-is_met_example : any (is_met never_found true started) starts_late ≡ true
wait-is_met_example = wait-is_met never_found true started "abc" starts_late starts_in_the_end

wait-ends_example :
    (r : Result (Unit {0})) × (wait never_found true healthy "abc"
        (polled (ok tt) (ok still_created) ∷ timed_out ∷ [])
      ≡ some r)
wait-ends_example =
    wait-ends never_found true healthy "abc" (polled (ok tt) (ok still_created) ∷ timed_out ∷ [])
      refl

evaluate_inspection_iff_example :
    (evaluate_inspection nothing_inspected started ≡ ok true)
    ↔ (meets started nothing_inspected.state ≡ true)
evaluate_inspection_iff_example = evaluate_inspection_iff nothing_inspected started
