-- ===== src/Container/Events/Sync/Laws.antt =====
-- The comparison of all rows with Docker does not interfere with operations that run.
use docker_cloud_manager.Prelude.{
  ℕ, ◌≡◌, refl, Bool, true, false, not, ◌||◌, some, List, [], ◌∷◌, any, if◌then◌else◌, ◌==◌, All,
  arith, Bool-cases, Option-cases, inl, inr,
}
use docker_cloud_manager.Result.{ok}
use docker_cloud_manager.Container.{Container, container, Db}
use docker_cloud_manager.Container.Store.{
  find_where, update_container, has_container_id, mark_status_error, has_active_operation,
  active_on,
}
use docker_cloud_manager.Container.Queue.Transactions.{container-operations}
use docker_cloud_manager.Container.Action.{
  Env, World, Action, return, raise, on, transact, query, docker, inspect_container, counted_db,
  request_rebalance,
}
use docker_cloud_manager.Container.Action.Keeps.{
  on-keeps, query-keeps, docker-keeps, transact-keeps,
}
use docker_cloud_manager.Container.Events.{ObservedContainerState, update_observed_status, observe}
use docker_cloud_manager.Container.Events.Laws.{is_error, IsKept, update_checked-IsKept}
use docker_cloud_manager.Container.Events.Sync.{
  has_active_lifecycle, non_exited, select, get_non_exited, same_status, desires_other,
  unless_active, mark_missing, sync_observed, sync_idle, sync_container, sync_each, sync_containers,
}
use mathlib.Core.Path.{subst, sym}
use text.Mathlib.Text.{◌==◌ as str_eq}

found-id :
    (id : ℕ) (c : Container) (cs : List Container)
    → find_where (has_container_id id) cs ≡ some c
    → c.id ≡ id
found-id id c [] h = cc
found-id id c (d ∷ cs) h = elim (Bool-cases (d.id == id)) [
  | inl here ↦ ground arith
  | inr there ↦ found-id id c cs (ground arith)
]

-- A container with an active operation, and its row.
abbrev pub IsBusy : ℕ → Container → Db → Type 0
IsBusy id c db = (any (active_on container id) db.operations ≡ true) × IsKept id c db

module _ (env : Env) (id : ℕ) (c : Container) where
  -- A write of the row of another container.
  other-IsBusy :
      (other : ℕ) (change : Container → Container) (w : World)
      → ((d : Container) → (change d).id ≡ d.id)
      → (other == id) ≡ false
      → IsBusy id c w.db
      → IsBusy id c (transact env (update_container other change) w).1.db
  other-IsBusy other change w keeps differs (active, row) =
      let same_id = found-id id c w.db.containers row in
      transact-keeps env (IsBusy id c) (update_container other change) w
        (
          rw (container-operations other change w.db) active,
          update_checked-IsKept id c (has_container_id other) change w.db keeps (ground arith) row,
        )
        (active, row)

  observed-IsBusy :
      (d : Container) (s : ObservedContainerState) (w : World)
      → (d.id == id) ≡ false
      → IsBusy id c w.db
      → IsBusy id c (sync_observed env d s w).1.db
  unfolding sync_observed update_observed_status
  observed-IsBusy d s w differs h = elim (Bool-cases (not (same_status d.status s.status))) [
    | inl p ↦ rw p (other-IsBusy d.id (observe s) w (λ e. refl) differs h)
    | inr n ↦ rw n (elim (Bool-cases (desires_other s.desired_status d)) [
      | inl q ↦ rw q (other-IsBusy d.id (observe s) w (λ e. refl) differs h)
      | inr m ↦ rw m h
    ])
  ]

  missing-IsBusy :
      (other : ℕ) (w : World)
      → (other == id) ≡ false
      → IsBusy id c w.db
      → IsBusy id c (mark_missing env other w).1.db
  unfolding mark_status_error
  missing-IsBusy other w differs h = other-IsBusy other _ w (λ d. refl) differs h

  -- The test for an active operation, and what follows where there is none.
  unless_active-IsBusy :
      (other : ℕ) (next : Action Bool) (w : World)
      → ((w' : World) → IsBusy id c w'.db → IsBusy id c (next w').1.db)
      → IsBusy id c w.db
      → IsBusy id c (unless_active env other next w).1.db
  unless_active-IsBusy other next w keeps h =
      on-keeps env (IsBusy id c) (query env (λ db. ok (has_active_operation container other db))) _
        _ w (query-keeps env (IsBusy id c) _ w h) (λ _ w' k. k)
        (λ active w' k. elim (Bool-cases active) [ inl p ↦ rw p k | inr n ↦ rw n (keeps w' k) ])

  idle-IsBusy :
      (d : Container) (w : World)
      → (d.id == id) ≡ false
      → IsBusy id c w.db
      → IsBusy id c (sync_idle env d w).1.db
  unfolding sync_idle
  idle-IsBusy d w differs h = elim (Bool-cases (str_eq d.docker_id "")) [
    | inl empty ↦ rw empty (elim (Bool-cases (is_error d.status)) [
      | inl p ↦ rw p h
      | inr n ↦ rw n (unless_active-IsBusy d.id _ w (λ w' k. missing-IsBusy d.id w' differs k) h)
    ])
    | inr given ↦ rw given (
        on-keeps env (IsBusy id c) (docker env (inspect_container d.docker_id) env.inspection) _ _ w
          (docker-keeps env (IsBusy id c) _ _ w h)
          (λ e w' k. elim (Bool-cases (env.is_not_found e)) [
            | inl p ↦ rw p (missing-IsBusy d.id w' differs k)
            | inr n ↦ rw n k
          ])
          (λ inspect w' k. observed-IsBusy d _ w' differs k))
  ]

  -- The container itself is passed over.
  active-IsBusy :
      (next : Action Bool) (w : World)
      → IsBusy id c w.db
      → IsBusy id c (unless_active env id next w).1.db
  unfolding query has_active_operation
  active-IsBusy next w (active, row) = elim (Option-cases (env.db_fault w.db_calls)) [
    | inl p ↦ rw (p, query) (rw active (active, row))
    | inr (e, p) ↦ rw (p, query) (active, row)
  ]

  -- The status of each row of the container is one of a lifecycle.
  abbrev pub IsInLifecycle : Container → Type 0
  IsInLifecycle d = (d.id == id) ≡ true → has_active_lifecycle d.status ≡ true

  container-IsBusy :
      (d : Container) (w : World)
      → IsInLifecycle d
      → IsBusy id c w.db
      → IsBusy id c (sync_container env d w).1.db
  unfolding sync_container
  container-IsBusy d w lifecycle h = elim (Bool-cases (d.id == id)) [
    | inl self ↦
        let same : d.id ≡ id = ground (arith, self) in
        rw (lifecycle self) (
          subst (λ other. IsBusy id c (unless_active env other (sync_idle env d) w).1.db) (sym same)
            (active-IsBusy (sync_idle env d) w h))
    | inr differs ↦ elim (Bool-cases (has_active_lifecycle d.status)) [
      | inl p ↦
          rw p
            (unless_active-IsBusy d.id (sync_idle env d) w (λ w' k. idle-IsBusy d w' differs k) h)
      | inr n ↦ rw n (idle-IsBusy d w differs h)
    ]
  ]

  each-IsBusy :
      (ds : List Container) (changed : Bool) (w : World)
      → All IsInLifecycle ds
      → IsBusy id c w.db
      → IsBusy id c (sync_each env ds changed w).1.db
  unfolding sync_each
  each-IsBusy [] changed w lifecycles h = h
  each-IsBusy (d ∷ ds) changed w (lifecycle, lifecycles) h =
      on-keeps env (IsBusy id c) (sync_container env d) _ _ w (container-IsBusy d w lifecycle h)
        (λ _ w' k. each-IsBusy ds changed w' lifecycles k)
        (λ more w' k. each-IsBusy ds (changed || more) w' lifecycles k)

  All-select :
      (p : Container → Bool) (ds : List Container)
      → All IsInLifecycle ds
      → All IsInLifecycle (select p ds)
  All-select p [] h = tt
  All-select p (d ∷ ds) (h, hs) = elim (Bool-cases (p d)) [
    | inl hit ↦ rw hit (h, All-select p ds hs)
    | inr miss ↦ rw miss (All-select p ds hs)
  ]

  snapshot-IsBusy :
      (ds : List Container) (w : World)
      → All IsInLifecycle ds
      → IsBusy id c w.db
      → IsBusy id c
          (on
            (sync_each env ds false)
            raise
            (λ changed. if changed then request_rebalance else return tt)
            w).1.db
  snapshot-IsBusy ds w lifecycles h =
      on-keeps env (IsBusy id c) (sync_each env ds false) _ _ w
        (each-IsBusy ds false w lifecycles h) (λ _ w' k. k)
        (λ changed w' k. elim (Bool-cases changed) [ inl p ↦ rw p k | inr n ↦ rw n k ])

  -- The comparison with Docker neither changes the row of a container that has an active
  -- operation and a status of a lifecycle, nor ends the operation, whichever calls of the
  -- database and of Docker fail.
  pub sync_containers-IsBusy :
      (w : World)
      → All IsInLifecycle w.db.containers
      → IsBusy id c w.db
      → IsBusy id c (sync_containers env w).1.db
  unfolding sync_containers query get_non_exited
  sync_containers-IsBusy w lifecycles h = elim (Option-cases (env.db_fault w.db_calls)) [
    | inl p ↦
        rw (p, query)
          (snapshot-IsBusy (select non_exited w.db.containers) (counted_db w)
            (All-select non_exited w.db.containers lifecycles) h)
    | inr (e, p) ↦ rw (p, query) h
  ]
