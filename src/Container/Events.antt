-- ===== src/Container/Events.antt =====
-- backend/internal/core/service/event_worker.go: the status of containers as Docker shows it, by
-- events and by a comparison of all rows with Docker; with the queries and updates of
-- backend/internal/core/repository/container.go that they make.
pub mod Laws
pub mod Sync
use docker_cloud_manager.Prelude.{
  ℕ, ◌≡◌, Bool, true, false, not, ◌&&◌, ◌||◌, Option, none, some, List, [], ◌∷◌, String, any,
  if◌then◌else◌, ◌==◌,
}
use docker_cloud_manager.Prelude.Int.{ℤ, pos, ltb_ℤ, leb_ℤ}
use docker_cloud_manager.AppErrors.{Err, sentinel, foreign, is, not_found}
use docker_cloud_manager.Result.{Result, ok, err}
use docker_cloud_manager.Container.{Status, Status-discrete, Container, container, Db}
use docker_cloud_manager.Container.Store.{
  Tx, update_where, find_where, or_not_found, nullable_error, has_container_id, mark_status_error,
  has_active_operation,
}
use docker_cloud_manager.Container.Action.{
  Env, World, Action, return, raise, on, ◌≫◌, transact, query, docker, inspect_container,
  ContainerInspection, request_rebalance,
}
use docker_cloud_manager.Container.Worker.{resource_missing_error}
use text.Mathlib.Text.{◌==◌ as str_eq}

pub record ObservedContainerState : Type 0 where
  pub status : Status
  pub desired_status : Option Status
  pub exit_code : Option ℤ
  pub cause : Option Err

-- `container_id` is `none` where the label is empty or no uuid.
pub record ContainerEvent : Type 0 where
  pub type : String
  pub action : String
  pub docker_id : String
  pub container_id : Option ℕ
  pub generation : ℤ
  pub exit_code : Option ℤ
  pub oom_killed : Bool

abbrev pub is_zero : ℤ → Bool
is_zero n = leb_ℤ n (pos 0) && leb_ℤ (pos 0) n

abbrev pub oom_error : Err
oom_error = foreign "container exited after OOM kill"

abbrev pub exit_error : Err
exit_error = foreign "container exited with non-zero code"

abbrev pub exited_state : Option ℤ → ObservedContainerState
exited_state code = record {
  status = Status.exited;
  desired_status = none;
  exit_code = code;
  cause = none;
}

abbrev pub failed_state : Option ℤ → Err → ObservedContainerState
failed_state code e = record (exited_state code) { status = Status.error; cause = some e }

abbrev exit_of_code : Bool → Option ℤ → ObservedContainerState
exit_of_code oom none = if oom then failed_state none oom_error else exited_state none
exit_of_code oom (some code) =
    if is_zero code
    then record (exited_state (some code)) { desired_status = some Status.exited }
    else if oom
    then failed_state (some code) oom_error
    else failed_state (some code) exit_error

unfoldable pub observed_state_from_exit_event : ContainerEvent → ObservedContainerState
observed_state_from_exit_event msg = exit_of_code msg.oom_killed msg.exit_code

abbrev pub expected_container_exit : Status → Bool
expected_container_exit Status.exited = true
expected_container_exit Status.deleting = true
expected_container_exit _ = false

abbrev pub is_created : Status → Bool
is_created Status.created = true
is_created _ = false

abbrev pub plain_state : Status → ObservedContainerState
plain_state status = record {
  status = status;
  desired_status = none;
  exit_code = none;
  cause = none;
}

unfoldable pub observed_state_from_inspect :
    Container → ContainerInspection → ObservedContainerState
observed_state_from_inspect c inspect =
    let code = inspect.state.exit_code in
    if inspect.state.running
    then plain_state Status.running
    else if is_created c.status && str_eq inspect.state.status "created"
    then plain_state Status.created
    else if is_zero code
    then record (exited_state (some code)) { desired_status = some Status.exited }
    else if expected_container_exit c.desired_status
    then exited_state (some code)
    else if inspect.state.oom_killed
    then failed_state (some code) oom_error
    else failed_state (some code) exit_error

-- COALESCE(desired, desired_status)
abbrev pub coalesce : Option Status → Status → Status
coalesce none old = old
coalesce (some new) old = new

abbrev pub observe : ObservedContainerState → Container → Container
observe s c = record c {
  status = s.status;
  desired_status = coalesce s.desired_status c.desired_status;
  last_exit_code = s.exit_code;
  last_error = nullable_error s.cause;
}

abbrev pub update_observed_where : (Container → Bool) → ObservedContainerState → Tx (Unit {0})
update_observed_where matches s db =
    if any matches db.containers
    then ok (tt, record db { containers = update_where matches (observe s) db.containers })
    else err (sentinel not_found)

unfoldable pub update_observed_status : ℕ → ObservedContainerState → Tx (Unit {0})
update_observed_status id = update_observed_where (has_container_id id)

-- A docker_id that is missing is NULL, which no text equals.
abbrev pub has_docker_id : String → Container → Bool
has_docker_id docker_id c = str_eq c.docker_id docker_id && not (str_eq docker_id "")

unfoldable pub update_observed_status_by_docker_id : String → ObservedContainerState → Tx (Unit {0})
update_observed_status_by_docker_id docker_id = update_observed_where (has_docker_id docker_id)

abbrev same_ℤ : ℤ → ℤ → Bool
same_ℤ a b = leb_ℤ a b && leb_ℤ b a

abbrev pub is_generation : ℕ → ℤ → Container → Bool
is_generation id generation c = c.id == id && same_ℤ c.docker_generation generation

unfoldable pub update_observed_status_by_container_id_and_generation :
    ℕ → ℤ → ObservedContainerState → Tx (Unit {0})
update_observed_status_by_container_id_and_generation id generation =
    update_observed_where (is_generation id generation)

unfoldable pub get_by_docker_id : String → Db → Result Container
get_by_docker_id docker_id db = or_not_found (find_where (has_docker_id docker_id) db.containers)

module _ (env : Env) where
  abbrev expect_exit : ObservedContainerState → Container → ObservedContainerState
  expect_exit s c =
      if expected_container_exit c.desired_status
      then record s { status = Status.exited; cause = none }
      else s

  abbrev pub adjust :
      Option Err → ContainerEvent → ObservedContainerState → Action ObservedContainerState
  adjust none msg s = return s
  adjust (some e) msg s =
      if str_eq msg.docker_id ""
      then return s
      else on (query env (get_by_docker_id msg.docker_id)) (λ _. return s)
          (λ c. return (expect_exit s c))

  unfoldable pub adjust_expected_exit_state :
      ContainerEvent → ObservedContainerState → Action ObservedContainerState
  adjust_expected_exit_state msg s = adjust s.cause msg s

  abbrev pub by_generation : Err → Option ℕ → ℤ → ObservedContainerState → Action (Unit {0})
  by_generation e none generation s = raise e
  by_generation e (some id) generation s =
      if leb_ℤ generation (pos 0)
      then raise e
      else transact env (update_observed_status_by_container_id_and_generation id generation s)

  unfoldable pub update_container_status_from_event :
      ContainerEvent → ObservedContainerState → Action (Unit {0})
  update_container_status_from_event msg state =
      on (adjust_expected_exit_state msg state) raise λ s.
        on (transact env (update_observed_status_by_docker_id msg.docker_id s))
          (λ e.
            if not (is e not_found)
            then raise e
            else by_generation e msg.container_id msg.generation s)
          return

  unfoldable pub handle_event : ContainerEvent → Action (Unit {0})
  handle_event msg =
      if not (str_eq msg.type "container")
      then return tt
      else if str_eq msg.action "start"
      then (update_container_status_from_event msg (plain_state Status.running) ≫ request_rebalance)
      else if (str_eq msg.action "die" || str_eq msg.action "stop")
          || (str_eq msg.action "kill" || str_eq msg.action "oom")
      then (update_container_status_from_event msg (observed_state_from_exit_event msg)
          ≫ request_rebalance)
      else if str_eq msg.action "destroy"
      then (update_container_status_from_event msg (record (plain_state Status.missing) {
        cause = some (resource_missing_error "container");
      })
          ≫ request_rebalance)
      else return tt
