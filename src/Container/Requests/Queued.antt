-- ===== src/Container/Requests/Queued.antt =====
-- What the requests to stop and to start leave in the queue, and what a request without access does.
use docker_cloud_manager.Prelude.{
  ℕ, ◌≡◌, refl, ap, Option, some, String, Bool-cases, Option-cases, inl, inr,
}
use docker_cloud_manager.AppErrors.{Err}
use docker_cloud_manager.Result.{err}
use docker_cloud_manager.Config.{SystemConfig}
use docker_cloud_manager.AccessScope.{Scope, require_owner_access}
use docker_cloud_manager.Admission.{Floats, Readings}
use docker_cloud_manager.Container.{Status, Container, OperationKind}
use docker_cloud_manager.Container.Store.{get_by_id, find_where, has_container_id}
use docker_cloud_manager.Container.Action.{Env, World, Action, query, counted_db}
use docker_cloud_manager.Container.Requests.{NewIds, for_owner, stop, start, delete, request}
use text.Mathlib.Text.{◌==◌ as str_eq}
use docker_cloud_manager.Container.Requests.Outcome.{
  Outcome, queue_operation-Outcome, check-Outcome, if_present-Outcome, for_owner-Outcome,
}

module _ {F : Type 0} (env : Env) (cfg : SystemConfig F) (floats : Floats F)
    (context : Option Scope) (ids : NewIds) (readings : Readings F) where
  -- A request to stop that is accepted has queued a stop of the container together with its message,
  -- and set the container to stopping; one that is refused has queued nothing.
  pub stop-Outcome :
      (container_id : ℕ) (w : World)
      → Outcome OperationKind.stop Status.stopping Status.exited container_id w.db
          (stop env cfg floats context ids readings container_id w)
  unfolding stop
  stop-Outcome container_id w =
      for_owner-Outcome env cfg floats context ids readings _ _ _ container_id _ w λ c found.
        if_present-Outcome env cfg floats context ids readings _ _ _ container_id c _ (counted_db w)
          (queue_operation-Outcome env cfg floats context ids readings c OperationKind.stop
            Status.stopping Status.exited container_id (counted_db w) found)

  -- A request to start that is accepted has queued a start of the container together with its
  -- message, and set the container to starting; one that is refused has queued nothing.
  pub start-Outcome :
      (container_id : ℕ) (w : World)
      → Outcome OperationKind.start Status.starting Status.running container_id w.db
          (start env cfg floats context ids readings container_id w)
  unfolding start
  start-Outcome container_id w =
      for_owner-Outcome env cfg floats context ids readings _ _ _ container_id _ w λ c found.
        let step =
          check-Outcome env cfg floats context ids readings OperationKind.start Status.starting
            Status.running container_id in
        let v = counted_db w in
        if_present-Outcome env cfg floats context ids readings _ _ _ container_id c _ v (
          step _ _ v (
            step _ _ v (
              step _ _ v (
                step _ _ v (
                  step _ _ v (
                    step _ _ v (
                      step _ _ v (
                        queue_operation-Outcome env cfg floats context ids readings c
                          OperationKind.start Status.starting Status.running container_id v
                          found))))))))

  for_owner-denied :
      (container_id : ℕ) (next : Container → Action (Unit {0})) (w : World) (c : Container)
      (e : Err)
      → find_where (has_container_id container_id) w.db.containers ≡ some c
      → require_owner_access context c.owner_id ≡ err e
      → (for_owner env cfg floats context ids readings container_id next w).1 ≡ counted_db w
  unfolding for_owner query get_by_id
  for_owner-denied container_id next w c e found denied =
      elim (Option-cases (env.db_fault w.db_calls)) [
        | inr (f, p) ↦ rw (p, query)
        | inl p ↦ rw (p, query) (rw found (rw denied))
      ]

  abbrev Untouched : World → World → Type 0
  Untouched before after = (after.db ≡ before.db) × (after.log ≡ before.log)

  untouched : (w v : World) → v ≡ counted_db w → Untouched w v
  untouched w v same = (ap (λ u. u.db) same, ap (λ u. u.log) same)

  -- A request without access to the owner of the container changes nothing in the database and
  -- asks nothing of Docker, whichever action it names.
  pub request-denied :
      (container_id : ℕ) (action : String) (w : World) (c : Container) (e : Err)
      → find_where (has_container_id container_id) w.db.containers ≡ some c
      → require_owner_access context c.owner_id ≡ err e
      → ((request env cfg floats context ids readings container_id action w).1.db ≡ w.db)
        × ((request env cfg floats context ids readings container_id action w).1.log ≡ w.log)
  unfolding request start stop delete
  request-denied container_id action w c e found denied =
      elim (Bool-cases (str_eq action "start")) [
        | inl p ↦ rw p (untouched w _ (for_owner-denied container_id _ w c e found denied))
        | inr n ↦ rw n (elim (Bool-cases (str_eq action "stop")) [
          | inl p ↦ rw p (untouched w _ (for_owner-denied container_id _ w c e found denied))
          | inr m ↦ rw m (elim (Bool-cases (str_eq action "delete")) [
            | inl p ↦ rw p (untouched w _ (for_owner-denied container_id _ w c e found denied))
            | inr k ↦ rw k (refl, refl)
          ])
        ])
      ]
