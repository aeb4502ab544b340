-- ===== src/Container/Events/Sync.antt =====
-- backend/internal/core/service/event_worker.go, syncContainers: all rows are compared with Docker.
pub mod Laws
use docker_cloud_manager.Prelude.{
  ℕ, ◌≡◌, refl, Bool, true, false, not, ◌&&◌, ◌||◌, Option, none, some, List, [], ◌∷◌, String, any,
  if◌then◌else◌, ◌==◌, All, arith, Bool-cases, Option-cases, inl, inr,
}
use docker_cloud_manager.AppErrors.{Err}
use docker_cloud_manager.Result.{Result, ok, err}
use docker_cloud_manager.Container.{Status, Status-discrete, Container, container, Db}
use docker_cloud_manager.Container.Store.{
  find_where, has_container_id, mark_status_error, has_active_operation,
}
use docker_cloud_manager.Container.Action.{
  Env, World, Action, return, raise, on, go_on, ◌≫◌, transact, query, docker, inspect_container,
  request_rebalance, DockerCall,
}
use docker_cloud_manager.Container.Worker.{resource_missing_error}
use docker_cloud_manager.Container.Worker.Expose.{is_running_status}
use docker_cloud_manager.Container.Events.{
  ObservedContainerState, observed_state_from_inspect, update_observed_status,
}
use docker_cloud_manager.Container.Events.Laws.{is_error, IsKept}
use mathlib.Core.Bool.{decide}
use text.Mathlib.Text.{◌==◌ as str_eq}

-- containerStatusHasActiveLifecycle
unfoldable pub has_active_lifecycle : Status → Bool
has_active_lifecycle Status.pending = true
has_active_lifecycle Status.creating = true
has_active_lifecycle Status.starting = true
has_active_lifecycle Status.stopping = true
has_active_lifecycle Status.exposing = true
has_active_lifecycle Status.deleting = true
has_active_lifecycle Status.reconciling = true
has_active_lifecycle _ = false

-- The filter of `GetNonExited`.
abbrev pub is_kept_status : Status → Bool
is_kept_status Status.created = true
is_kept_status Status.running = true
is_kept_status status = has_active_lifecycle status

abbrev pub wants_presence : Status → Bool
wants_presence Status.created = true
wants_presence Status.running = true
wants_presence Status.deleting = true
wants_presence _ = false

abbrev pub is_missing : Status → Bool
is_missing Status.missing = true
is_missing _ = false

abbrev pub non_exited : Container → Bool
non_exited c =
    not (is_missing c.status) && (is_kept_status c.status || wants_presence c.desired_status)

abbrev pub select : {A : Type 0} → (A → Bool) → List A → List A
select p [] = []
select p (x ∷ xs) = let rest = select p xs in if p x then x ∷ rest else rest

unfoldable pub get_non_exited : Db → List Container
unfolding has_active_lifecycle
get_non_exited db = select non_exited db.containers

unfoldable pub same_status : Status → Status → Bool
unfolding Status-discrete mathlib.Core.Bool.decide
same_status a b = decide (Status-discrete a b)

-- `observed.desiredStatus != nil && c.DesiredStatus != *observed.desiredStatus`
abbrev pub desires_other : Option Status → Container → Bool
desires_other none c = false
desires_other (some desired) c = not (same_status c.desired_status desired)

module _ (env : Env) where
  -- An operation on the container, or an error in looking for one, passes the container over.
  abbrev pub unless_active : ℕ → Action Bool → Action Bool
  unless_active id next =
      on (query env (λ db. ok (has_active_operation container id db))) (λ _. return false)
        (λ active. if active then return false else next)

  abbrev pub mark_missing : ℕ → Action (Unit {0})
  mark_missing id =
      transact env (mark_status_error id Status.missing (some (resource_missing_error "container")))

  unfoldable pub sync_observed : Container → ObservedContainerState → Action Bool
  sync_observed c s =
      if not (same_status c.status s.status)
      then (transact env (update_observed_status c.id s)
          ≫ return (is_running_status s.status || is_running_status c.status))
      else if desires_other s.desired_status c
      then (transact env (update_observed_status c.id s) ≫ return false)
      else return false

  unfoldable pub sync_idle : Container → Action Bool
  sync_idle c =
      if str_eq c.docker_id ""
      then (if is_error c.status
          then return false
          else unless_active c.id (mark_missing c.id ≫ return false))
      else on (docker env (inspect_container c.docker_id) env.inspection)
          (λ e. if env.is_not_found e then (mark_missing c.id ≫ return true) else return false)
          (λ inspect. sync_observed c (observed_state_from_inspect c inspect))

  -- The body of the loop; its answer tells whether `changed` is set.
  unfoldable pub sync_container : Container → Action Bool
  sync_container c =
      if has_active_lifecycle c.status then unless_active c.id (sync_idle c) else sync_idle c

  unfoldable pub sync_each : List Container → Bool → Action Bool
  sync_each [] changed = return changed
  sync_each (c ∷ cs) changed =
      on (sync_container c) (λ _. sync_each cs changed) (λ more. sync_each cs (changed || more))

  unfoldable pub sync_containers : Action (Unit {0})
  sync_containers =
      on (query env (λ db. ok (get_non_exited db))) (λ _. return tt)
        λ cs.
          on (sync_each cs false) raise λ changed. if changed then request_rebalance else return tt
