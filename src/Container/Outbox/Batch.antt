-- ===== src/Container/Outbox/Batch.antt =====
-- What publishBatch of backend/internal/core/service/container_outbox_worker.go does as a whole.
use docker_cloud_manager.Prelude.{
  ℕ, ◌≡◌, refl, sym, Bool, true, some, List, [], ◌∷◌, Option-cases, inl, inr, ◌⊎◌,
}
use mathlib.Core.Path.{subst}
use docker_cloud_manager.Prelude.Int.{ℤ, pos, negsuc}
use docker_cloud_manager.Config.{SystemConfig}
use docker_cloud_manager.Container.{ContainerLifecycleOutbox, LifecycleMessage, Db}
use docker_cloud_manager.Container.Store.{find_where, has_operation_id, has_container_id}
use docker_cloud_manager.Container.Action.{Env, World, transact, counted_db}
use docker_cloud_manager.Container.Outbox.{
  leasable, lease_rows, lease_pending_container_outbox, publish_item, publish_items, publish_batch,
}
use docker_cloud_manager.Container.Outbox.Step.{IsReady, Step, held, sent, publish_item-Step}
use docker_cloud_manager.Container.Outbox.Leased.{Memᴰ, head, tail, mem-leased}

-- The tables besides the outbox are as they were.
abbrev pub SameTables : World → World → Type 0
SameTables w w' = (w'.db.operations ≡ w.db.operations) × (w'.db.containers ≡ w.db.containers)

pub Step-SameTables :
    (item : ContainerLifecycleOutbox) (w w' : World) → Step item w w' → SameTables w w'
Step-SameTables item w w' (held s p m q) = (m.operations, m.containers)
Step-SameTables item w w' (sent s r m q) = (m.operations, m.containers)

-- A row that is ready in one database is so in another with the same tables.
pub IsReady-back :
    (i : ContainerLifecycleOutbox) (a b : Db)
    → b.operations ≡ a.operations
    → b.containers ≡ a.containers
    → IsReady b i
    → IsReady a i
IsReady-back i a b same_ops same_rows r = record {
  operation = r.operation;
  found = rw (sym same_ops) r.found;
  pending = r.pending;
  row = r.row;
  row_found = rw (sym same_rows) r.row_found;
}

abbrev pub IsDue : Db → List ContainerLifecycleOutbox → LifecycleMessage → Type 0
IsDue db items m =
    (item : ContainerLifecycleOutbox) × Memᴰ item items × (item.payload ≡ m) × IsReady db item

Step-sends :
    (item : ContainerLifecycleOutbox) (m : LifecycleMessage) (w w' : World)
    → Step item w w'
    → Memᴰ m w'.queue
    → Memᴰ m w.queue ⊎ ((item.payload ≡ m) × IsReady w.db item)
Step-sends item m w w' (held s p k q) h = inl (rw (sym q) h)
Step-sends item m w w' (sent s r k q) h = elim (subst (Memᴰ m) q h) [
  | head e ↦ inr (sym e, r)
  | tail there ↦ inl there
]

module _ {F : Type 0} (env : Env) (cfg : SystemConfig F) where
  pub items-sent :
      (items : List ContainerLifecycleOutbox) (m : LifecycleMessage) (w : World)
      → Memᴰ m (publish_items env cfg items w).1.queue
      → Memᴰ m w.queue ⊎ IsDue w.db items m
  unfolding publish_items
  items-sent [] m w h = inl h
  items-sent (i ∷ items) m w h =
      let step = publish_item-Step env cfg i w in
      let w' = (publish_item env cfg i w).1 in
      let (ops, rows) = Step-SameTables i w w' step in
      elim (items-sent items m w' h) [
        | inr (x, there, e, r) ↦ inr (x, tail there, e, IsReady-back x w.db w'.db ops rows r)
        | inl before ↦ elim (Step-sends i m w w' step before) [
          | inl already ↦ inl already
          | inr (e, r) ↦ inr (i, head refl, e, r)
        ]
      ]

  module _ (is_stale : ContainerLifecycleOutbox → Bool) where
    abbrev pub leased_world : ℕ → World → World
    leased_world n w = record (counted_db w) {
      db = record (w.db) { outbox = (lease_rows is_stale n w.db.outbox).1 };
    }

    abbrev pub leased : ℕ → World → List ContainerLifecycleOutbox
    leased n w = (lease_rows is_stale n w.db.outbox).0

    -- Nothing is leased, or the leased rows are gone through.
    pub batch-cases :
        (w : World)
        → ((publish_batch env cfg is_stale w).1 ≡ counted_db w)
          ⊎ ((n : ℕ) × ((publish_batch env cfg is_stale w).1
                ≡ (publish_items env cfg (leased n w) (leased_world n w)).1))
    unfolding publish_batch lease_pending_container_outbox transact
    batch-cases w = elim (Option-cases (env.db_fault w.db_calls)) [
      | inr (e, p) ↦ inl (rw (p, transact))
      | inl p ↦ elim (limit-cases cfg.container_create_outbox_batch_size) [
        | inl (n, q) ↦ inl (rw (p, transact) (rw q))
        | inr (n, q) ↦ inr (n, rw (p, transact) (rw q))
      ]
    ]
      where
        limit-cases : (z : ℤ) → ((n : ℕ) × (z ≡ negsuc n)) ⊎ ((n : ℕ) × (z ≡ pos n))
        limit-cases (negsuc n) = inl (n, refl)
        limit-cases (pos n) = inr (n, refl)

    leased-IsReady :
        (n : ℕ) (m : LifecycleMessage) (w : World)
        → IsDue (leased_world n w).db (leased n w) m
        → (item : ContainerLifecycleOutbox) × Memᴰ item w.db.outbox
          × (leasable is_stale item ≡ true)
          × (item.payload ≡ m)
          × IsReady w.db item
    leased-IsReady n m w (i, there, e, r) =
        let (x, row, free, same) = mem-leased is_stale n i w.db.outbox there in
        (
          x,
          row,
          free,
          subst (λ j. j.payload ≡ m) same e,
          record {
            operation = r.operation;
            found =
                subst
                  (λ j.
                    find_where (has_operation_id j.operation_id) w.db.operations ≡ some r.operation)
                  same r.found;
            pending = r.pending;
            row = r.row;
            row_found =
                subst
                  (λ j. find_where (has_container_id j.container_id) w.db.containers ≡ some r.row)
                  same r.row_found;
          },
        )

    -- A message that publishBatch adds to the queue is that of a row of the outbox which was
    -- pending, or left publishing for a minute, whose operation was pending and whose container
    -- existed, whichever calls of the database and of the broker fail.
    pub publish_batch-IsReady :
        (m : LifecycleMessage) (w : World)
        → Memᴰ m (publish_batch env cfg is_stale w).1.queue
        → Memᴰ m w.queue
          ⊎ ((item : ContainerLifecycleOutbox) × Memᴰ item w.db.outbox
              × (leasable is_stale item ≡ true)
              × (item.payload ≡ m)
              × IsReady w.db item)
    publish_batch-IsReady m w h = elim (batch-cases w) [
      | inl idle ↦ inl (subst (λ v. Memᴰ m v.queue) idle h)
      | inr (n, same) ↦
          elim (items-sent (leased n w) m (leased_world n w) (subst (λ v. Memᴰ m v.queue) same h)) [
            | inl before ↦ inl before
            | inr due ↦ inr (leased-IsReady n m w due)
          ]
    ]
