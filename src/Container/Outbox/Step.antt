-- ===== src/Container/Outbox/Step.antt =====
-- What the body of the loop of publishBatch does with one row, whichever of its calls fail.
use docker_cloud_manager.Prelude.{
  ◌≡◌, refl, ◌⊎◌, inl, inr, Bool, true, false, Option, none, some, ◌∷◌, any, Bool-cases,
  Option-cases,
}
use docker_cloud_manager.AppErrors.{Err, is, not_found, sentinel}
use docker_cloud_manager.Config.{SystemConfig}
use docker_cloud_manager.Container.{
  OutboxStatus, published, discarded, ContainerLifecycleOutbox, is_pending, Db, ResourceOperation,
  Container,
}
use docker_cloud_manager.Container.Store.{
  update_where, find_where, has_outbox_id, has_operation_id, has_container_id, get_by_id,
  get_operation_by_id,
}
use docker_cloud_manager.Container.Queue.{set_outbox}
use docker_cloud_manager.Container.Action.{
  Env, World, Action, on, query, transact, publish, counted_db,
}
use docker_cloud_manager.Container.Outbox.{
  mark, unread, publish_item, update_container_outbox_status,
}

-- The operation of the row is pending, and its container exists.
pub record IsReady (db : Db) (item : ContainerLifecycleOutbox) : Type 0 where
  pub operation : ResourceOperation
  pub found : find_where (has_operation_id item.operation_id) db.operations ≡ some operation
  pub pending : is_pending operation.status ≡ true
  pub row : Container
  pub row_found : find_where (has_container_id item.container_id) db.containers ≡ some row

abbrev pub is_published : OutboxStatus → Bool
is_published published = true
is_published _ = false

-- Only the outbox may differ, where the row has its new status, or not.
pub record IsMarked (item : ContainerLifecycleOutbox) (s : OutboxStatus) (w w' : World)
    : Type 0 where
  pub operations : w'.db.operations ≡ w.db.operations
  pub containers : w'.db.containers ≡ w.db.containers
  pub outbox :
      (w'.db.outbox ≡ w.db.outbox)
      ⊎ ((cause : Option Err) × (w'.db.outbox
            ≡ update_where (has_outbox_id item.id) (set_outbox s cause) w.db.outbox))

-- The row is marked as published only once its message is sent.
pub data Step (item : ContainerLifecycleOutbox) (w w' : World) : Type 0 where
  held :
      (s : OutboxStatus)
      → is_published s ≡ false
      → IsMarked item s w w'
      → w'.queue ≡ w.queue
      → Step item w w'
  sent :
      (s : OutboxStatus)
      → IsReady w.db item
      → IsMarked item s w w'
      → w'.queue ≡ item.payload ∷ w.queue
      → Step item w w'

module _ {F : Type 0} (env : Env) (cfg : SystemConfig F) (item : ContainerLifecycleOutbox) where
  -- The writes of the row, from a world with the tables of `w`.
  pub mark-IsMarked :
      (s : OutboxStatus) (cause : Option Err) (w w' : World)
      → w'.db ≡ w.db
      → IsMarked item s w (mark env cfg item s cause w').1
        × ((mark env cfg item s cause w').1.queue ≡ w'.queue)
  unfolding mark transact update_container_outbox_status
  mark-IsMarked s cause w w' same = elim (Option-cases (env.db_fault w'.db_calls)) [
    | inr (e, p) ↦
        rw (p, transact)
          (
            record {
              operations = rw same refl;
              containers = rw same refl;
              outbox = inl (rw same refl);
            },
            refl,
          )
    | inl p ↦
        rw (p, transact)
          (elim (Bool-cases (any (has_outbox_id item.id) w'.db.outbox)) [
            | inr n ↦ rw n (
              record {
                operations = rw same refl;
                containers = rw same refl;
                outbox = inl (rw same refl);
              },
              refl,
            )
            | inl y ↦ rw y (
              record {
                operations = rw same refl;
                containers = rw same refl;
                outbox = inr (cause, rw same refl);
              },
              refl,
            )
          ])
  ]

  mark-held :
      (s : OutboxStatus) (cause : Option Err) (w w' : World)
      → is_published s ≡ false
      → w'.db ≡ w.db
      → w'.queue ≡ w.queue
      → Step item w (mark env cfg item s cause w').1
  mark-held s cause w w' p same quiet =
      let (marked, q) = mark-IsMarked s cause w w' same in held s p marked (rw q quiet)

  unread-held :
      (e : Err) (w w' : World)
      → w'.db ≡ w.db
      → w'.queue ≡ w.queue
      → Step item w (unread env cfg item e w').1
  unfolding unread
  unread-held e w w' same quiet = elim (Bool-cases (is e not_found)) [
    | inl p ↦ rw p (mark-held discarded (some e) w w' refl same quiet)
    | inr n ↦ rw n (mark-held OutboxStatus.pending (some e) w w' refl same quiet)
  ]

  mark-sent :
      (s : OutboxStatus) (cause : Option Err) (w w' : World)
      → IsReady w.db item
      → w'.db ≡ w.db
      → w'.queue ≡ item.payload ∷ w.queue
      → Step item w (mark env cfg item s cause w').1
  mark-sent s cause w w' ready same there =
      let (marked, q) = mark-IsMarked s cause w w' same in sent s ready marked (rw q there)

  abbrev sends : Action (Unit {0})
  sends =
      on (publish env item.payload) (λ e. mark env cfg item OutboxStatus.pending (some e))
        (λ _. mark env cfg item published none)

  sends-Step :
      (w w' : World)
      → IsReady w.db item
      → w'.db ≡ w.db
      → w'.queue ≡ w.queue
      → Step item w (sends w').1
  unfolding publish
  sends-Step w w' ready same quiet = elim (Option-cases (env.publish_fault w'.publish_calls)) [
    | inl p ↦ rw (p, publish) (mark-sent published none w _ ready same (rw quiet refl))
    | inr (e, p) ↦
        rw (p, publish)
          (elim (Bool-cases (env.publish_reaches w'.publish_calls)) [
            | inl there ↦
                rw there (mark-sent OutboxStatus.pending (some e) w _ ready same (rw quiet refl))
            | inr lost ↦ rw lost (mark-held OutboxStatus.pending (some e) w _ refl same quiet)
          ])
  ]

  with_container-Step :
      (op : ResourceOperation) (w w' : World)
      → find_where (has_operation_id item.operation_id) w.db.operations ≡ some op
      → is_pending op.status ≡ true
      → w'.db ≡ w.db
      → w'.queue ≡ w.queue
      → Step item w
          (on (query env (get_by_id item.container_id)) (unread env cfg item) (λ _. sends) w').1
  unfolding query get_by_id
  with_container-Step op w w' found live same quiet =
      elim (Option-cases (env.db_fault w'.db_calls)) [
        | inr (e, p) ↦ rw (p, query) (unread-held e w (counted_db w') same quiet)
        | inl p ↦
            rw (p, query)
              (elim (Option-cases
                (find_where (has_container_id item.container_id) w'.db.containers)) [
                  | inl gone ↦
                      rw gone (unread-held (sentinel not_found) w (counted_db w') same quiet)
                  | inr (c, there) ↦ rw there (
                      sends-Step w (counted_db w')
                        (record {
                          operation = op;
                          found = found;
                          pending = live;
                          row = c;
                          row_found = rw same at there;
                        })
                        same quiet)
                ])
      ]

  pub publish_item-Step : (w : World) → Step item w (publish_item env cfg item w).1
  unfolding publish_item query get_operation_by_id
  publish_item-Step w = elim (Option-cases (env.db_fault w.db_calls)) [
    | inr (e, p) ↦ rw (p, query) (unread-held e w (counted_db w) refl refl)
    | inl p ↦
        rw (p, query)
          (elim (Option-cases (find_where (has_operation_id item.operation_id) w.db.operations)) [
            | inl gone ↦ rw gone (unread-held (sentinel not_found) w (counted_db w) refl refl)
            | inr (op, found) ↦ rw found (elim (Bool-cases (is_pending op.status)) [
              | inl live ↦ rw live (with_container-Step op w (counted_db w) found live refl refl)
              | inr over ↦ rw over (mark-held discarded none w (counted_db w) refl refl refl)
            ])
          ])
  ]
