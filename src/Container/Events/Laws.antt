-- ===== src/Container/Events/Laws.antt =====
-- What the event worker of backend/internal/core/service/event_worker.go writes, and where.
use docker_cloud_manager.Prelude.{
  ℕ, ◌≡◌, refl, Bool, true, false, not, ◌&&◌, ◌||◌, Option, none, some, List, [], ◌∷◌, any,
  if◌then◌else◌, ◌==◌, arith, Bool-cases, inl, inr,
}
use docker_cloud_manager.Prelude.Int.{ℤ, pos, leb_ℤ}
use docker_cloud_manager.AppErrors.{Err, sentinel, is, not_found}
use docker_cloud_manager.Result.{ok, err}
use docker_cloud_manager.Container.{Status, Container, Db}
use docker_cloud_manager.Container.Store.{update_where, find_where, has_container_id}
use docker_cloud_manager.Container.Action.{
  Env, World, return, raise, transact, query, ContainerInspection,
}
use docker_cloud_manager.Container.Events.{
  ObservedContainerState, ContainerEvent, observed_state_from_inspect, expected_container_exit,
  observe, update_observed_where, has_docker_id, is_generation, update_observed_status_by_docker_id,
  update_observed_status_by_container_id_and_generation, get_by_docker_id,
  adjust_expected_exit_state, update_container_status_from_event, handle_event, is_created, is_zero,
  by_generation, adjust,
}
use mathlib.Core.Path.{subst}
use docker_cloud_manager.Container.Queue.Steps.{commit}
use docker_cloud_manager.Container.Action.Keeps.{on-keeps, query-keeps, transact-keeps}
use text.Mathlib.Text.{◌==◌ as str_eq}

abbrev pub is_error : Status → Bool
is_error Status.error = true
is_error _ = false

abbrev pub is_some : Option Err → Bool
is_some none = false
is_some (some e) = true

-- An inspection makes a container one in error exactly where it has stopped with a code other
-- than zero, is not one that was only created, and was not meant to stop; and exactly then the
-- row gets a cause.
pub observed_state_from_inspect-is_error :
    (c : Container) (inspect : ContainerInspection)
    → let failed =
        (not inspect.state.running && not (is_zero inspect.state.exit_code))
        && (not (is_created c.status && str_eq inspect.state.status "created")
            && not (expected_container_exit c.desired_status)) in
      (is_error (observed_state_from_inspect c inspect).status ≡ failed)
      × (is_some (observed_state_from_inspect c inspect).cause ≡ failed)
unfolding observed_state_from_inspect
observed_state_from_inspect-is_error c inspect = (ground arith, ground arith)

-- The row of a container, which an event does not touch.
abbrev pub IsKept : ℕ → Container → Db → Type 0
IsKept id c db = find_where (has_container_id id) db.containers ≡ some c

-- An UPDATE of other rows keeps it.
pub update-IsKept :
    (id : ℕ) (c : Container) (matches : Container → Bool) (change : Container → Container)
    (cs : List Container)
    → ((d : Container) → (change d).id ≡ d.id)
    → matches c ≡ false
    → find_where (has_container_id id) cs ≡ some c
    → find_where (has_container_id id) (update_where matches change cs) ≡ some c
update-IsKept id c matches change [] keeps spared h = h
update-IsKept id c matches change (d ∷ cs) keeps spared h = elim (Bool-cases (d.id == id)) [
  | inl here ↦
      let same : some d ≡ some c =
        subst (λ b. (if b then some d else find_where (has_container_id id) cs) ≡ some c) here h in
      elim (Bool-cases (matches d)) [ inl hit ↦ cc | inr miss ↦ rw miss (rw here same) ]
  | inr there ↦
      let rest = update-IsKept id c matches change cs keeps spared (
        subst (λ b. (if b then some d else find_where (has_container_id id) cs) ≡ some c) there
          h) in
      elim (Bool-cases (matches d)) [
        | inl hit ↦ rw hit (rw (keeps d) (rw there rest))
        | inr miss ↦ rw miss (rw there rest)
      ]
]

-- So does an UPDATE of other rows with its check.
pub update_checked-IsKept :
    (id : ℕ) (c : Container) (matches : Container → Bool) (change : Container → Container) (db : Db)
    → ((d : Container) → (change d).id ≡ d.id)
    → matches c ≡ false
    → IsKept id c db
    → IsKept id c (
        commit
          (if any matches db.containers
            then ok (tt {0}, record db { containers = update_where matches change db.containers })
            else err (sentinel not_found))
          db)
update_checked-IsKept id c matches change db keeps spared h =
    elim (Bool-cases (any matches db.containers)) [
      | inl some_row ↦ rw some_row (update-IsKept id c matches change db.containers keeps spared h)
      | inr no_row ↦ rw no_row h
    ]

module _ (env : Env) (id : ℕ) (c : Container) where
  -- An update of rows among which the container is not.
  observed-IsKept :
      (matches : Container → Bool) (s : ObservedContainerState) (w : World)
      → matches c ≡ false
      → IsKept id c w.db
      → IsKept id c (transact env (update_observed_where matches s) w).1.db
  observed-IsKept matches s w spared h =
      transact-keeps env (IsKept id c) (update_observed_where matches s) w
        (update_checked-IsKept id c matches (observe s) w.db (λ d. refl) spared h) h

  adjust-IsKept :
      (cause : Option Err) (msg : ContainerEvent) (s : ObservedContainerState) (w : World)
      → IsKept id c w.db
      → IsKept id c (adjust env cause msg s w).1.db
  adjust-IsKept none msg s w h = h
  adjust-IsKept (some e) msg s w h = elim (Bool-cases (str_eq msg.docker_id "")) [
    | inl empty ↦ rw empty h
    | inr given ↦ rw given (
        on-keeps env (IsKept id c) (query env (get_by_docker_id msg.docker_id)) _ _ w
          (query-keeps env (IsKept id c) _ w h) (λ _ w' k. k) (λ _ w' k. k))
  ]

  by_generation-IsKept :
      (e : Err) (container_id : Option ℕ) (generation : ℤ) (s : ObservedContainerState) (w : World)
      → ((other : ℕ) → container_id ≡ some other → is_generation other generation c ≡ false)
      → IsKept id c w.db
      → IsKept id c (by_generation env e container_id generation s w).1.db
  unfolding update_observed_status_by_container_id_and_generation
  by_generation-IsKept e none generation s w spared h = h
  by_generation-IsKept e (some other) generation s w spared h =
      elim (Bool-cases (leb_ℤ generation (pos 0))) [
        | inl none_given ↦ rw none_given h
        | inr given ↦
            rw given (observed-IsKept (is_generation other generation) s w (spared other refl) h)
      ]

  -- The container is of another Docker id, and of another generation than the event's labels say.
  abbrev pub IsUnrelated : ContainerEvent → Type 0
  IsUnrelated msg =
      (has_docker_id msg.docker_id c ≡ false)
      × ((other : ℕ) → msg.container_id ≡ some other → is_generation other msg.generation c ≡ false)

  update_from_event-IsKept :
      (msg : ContainerEvent) (s : ObservedContainerState) (w : World)
      → IsUnrelated msg
      → IsKept id c w.db
      → IsKept id c (update_container_status_from_event env msg s w).1.db
  unfolding update_container_status_from_event adjust_expected_exit_state
      update_observed_status_by_docker_id
  update_from_event-IsKept msg s w (docker, labels) h =
      on-keeps env (IsKept id c) (adjust env s.cause msg s) raise _ w
        (adjust-IsKept s.cause msg s w h) (λ _ w' k. k)
        (λ t w' k.
          on-keeps env (IsKept id c)
            (transact env (update_observed_where (has_docker_id msg.docker_id) t)) _ return w'
            (observed-IsKept (has_docker_id msg.docker_id) t w' docker k)
            (λ e v q. elim (Bool-cases (not (is e not_found))) [
              | inl other ↦ rw other q
              | inr missing ↦
                  rw missing (by_generation-IsKept e msg.container_id msg.generation t v labels q)
            ])
            (λ _ v q. q))

  -- An event leaves the row of a container as it is which has neither the event's Docker id nor
  -- the id and generation of the event's labels, whichever calls of the database fail.
  pub handle_event-IsKept :
      (msg : ContainerEvent) (w : World)
      → IsUnrelated msg
      → IsKept id c w.db
      → IsKept id c (handle_event env msg w).1.db
  unfolding handle_event
  handle_event-IsKept msg w other h = elim (Bool-cases (str_eq msg.type "container")) [
    | inr p ↦ rw p h
    | inl p ↦ rw p (elim (Bool-cases (str_eq msg.action "start")) [
      | inl q ↦ rw q (update_from_event-IsKept msg _ w other h)
      | inr q ↦
          rw q
            (elim (Bool-cases (
              (str_eq msg.action "die" || str_eq msg.action "stop")
              || (str_eq msg.action "kill" || str_eq msg.action "oom"))) [
                | inl k ↦ rw k (update_from_event-IsKept msg _ w other h)
                | inr k ↦ rw k (elim (Bool-cases (str_eq msg.action "destroy")) [
                  | inl m ↦ rw m (update_from_event-IsKept msg _ w other h)
                  | inr m ↦ rw m h
                ])
              ])
    ])
  ]
