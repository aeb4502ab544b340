-- ===== src/Container/Outbox/Delivery.antt =====
-- No message of the outbox of backend/internal/core/service/container_outbox_worker.go is lost.
use docker_cloud_manager.Prelude.{
  ℕ, ◌≤◌, ◌≡◌, refl, sym, ap, ◌∙◌, Bool, true, none, List, [], ◌∷◌, Bool-cases, inl, inr, ◌⊎◌, ◌==◌,
  ==_iff,
}
use mathlib.Core.Path.{subst}
use docker_cloud_manager.Prelude.Int.{pos}
use docker_cloud_manager.Config.{SystemConfig}
use docker_cloud_manager.Container.{
  ContainerLifecycleOutbox, LifecycleMessage, OutboxStatus, published,
}
use docker_cloud_manager.Container.Store.{has_outbox_id, get_by_id, get_operation_by_id}
use docker_cloud_manager.Container.Queue.{set_outbox}
use docker_cloud_manager.Container.Action.{Env, World, query, transact, publish, counted_db}
use docker_cloud_manager.Container.Outbox.{
  leasable, lease_row, lease_pending_container_outbox, publish_item, publish_items, publish_batch,
}
use docker_cloud_manager.Container.Outbox.Step.{
  IsReady, IsMarked, Step, held, sent, is_published, publish_item-Step, mark-IsMarked,
}
use docker_cloud_manager.Container.Outbox.Leased.{
  Memᴰ, head, tail, mem-update, mem-leased, mem-after_lease, leases_all, count,
}
use docker_cloud_manager.Container.Worker.Settled.Lifecycle.{IsSteady}
use docker_cloud_manager.Container.Outbox.Batch.{
  Step-SameTables, IsReady-back, batch-cases, leased, leased_world,
}

-- A row that is marked as published has its message in the queue.
abbrev pub HasSent : World → Type 0
HasSent w =
    (row : ContainerLifecycleOutbox)
    → Memᴰ row w.db.outbox
    → is_published row.status ≡ true
    → Memᴰ row.payload w.queue

-- The rows with the id of an item have its message.
abbrev Carries : World → ContainerLifecycleOutbox → Type 0
Carries w item =
    (row : ContainerLifecycleOutbox)
    → Memᴰ row w.db.outbox
    → row.id ≡ item.id
    → row.payload ≡ item.payload

-- A marked row has the id and the message of a row before it.
marked_row :
    (item row : ContainerLifecycleOutbox) (s : OutboxStatus) (w w' : World)
    → IsMarked item s w w'
    → Memᴰ row w'.db.outbox
    → (old : ContainerLifecycleOutbox) × Memᴰ old w.db.outbox
      × (row.id ≡ old.id)
      × (row.payload ≡ old.payload)
      × ((row.status ≡ old.status) ⊎ ((old.id ≡ item.id) × (row.status ≡ s)))
marked_row item row s w w' m h = elim m.outbox [
  | inl same ↦ (row, subst (Memᴰ row) same h, refl, refl, inl refl)
  | inr (cause, same) ↦
      let (old, there, e) =
        mem-update (has_outbox_id item.id) (set_outbox s cause) row w.db.outbox
          (subst (Memᴰ row) same h) in
      elim (Bool-cases (old.id == item.id)) [
        | inl hit ↦
            let e' : row ≡ set_outbox s cause old = rw hit at e in
            (
              old,
              there,
              ap (λ r. r.id) e',
              ap (λ r. r.payload) e',
              inr ((==_iff old.id item.id).0 hit, ap (λ r. r.status) e'),
            )
        | inr miss ↦
            let e' : row ≡ old = rw miss at e in
            (old, there, ap (λ r. r.id) e', ap (λ r. r.payload) e', inl (ap (λ r. r.status) e'))
      ]
]

queue_grows :
    (item : ContainerLifecycleOutbox) (m : LifecycleMessage) (w w' : World)
    → Step item w w'
    → Memᴰ m w.queue
    → Memᴰ m w'.queue
queue_grows item m w w' (held s p k q) h = rw q h
queue_grows item m w w' (sent s r k q) h = rw q (tail h)

Step-Carries :
    (item i : ContainerLifecycleOutbox) (w w' : World)
    → Step i w w'
    → Carries w item
    → Carries w' item
Step-Carries item i w w' step c row h e =
    let (s, marked) = mark_of step in
    let (old, there, same_id, same_payload, _) = marked_row i row s w w' marked h in
    same_payload ∙ c old there (sym same_id ∙ e)
  where
    mark_of : Step i w w' → (s : OutboxStatus) × IsMarked i s w w'
    mark_of (held s p m q) = (s, m)
    mark_of (sent s r m q) = (s, m)

Step-HasSent :
    (item : ContainerLifecycleOutbox) (w w' : World)
    → Step item w w'
    → Carries w item
    → HasSent w
    → HasSent w'
Step-HasSent item w w' (held s p m q) c sent_before row h shown =
    let (old, there, same_id, same_payload, status) = marked_row item row s w w' m h in
    elim status [
      | inl same ↦ rw (q, same_payload) (sent_before old there (rw same at shown))
      | inr (hit, other) ↦
          let clash : ⊥ = (let shown_s : is_published s ≡ true = rw other at shown in cc) in
          absurd clash
    ]
Step-HasSent item w w' (sent s r m q) c sent_before row h shown =
    let (old, there, same_id, same_payload, status) = marked_row item row s w w' m h in
    elim status [
      | inl same ↦ rw (q, same_payload) (tail (sent_before old there (rw same at shown)))
      | inr (hit, other) ↦ rw (q, same_payload) (head (c old there hit))
    ]

-- A lease keeps the id and the message of a row.
lease_keeps :
    (row y : ContainerLifecycleOutbox)
    → (row ≡ y) ⊎ (row ≡ lease_row y)
    → (row.id ≡ y.id) × (row.payload ≡ y.payload)
lease_keeps row y (inl e) = (ap (λ r. r.id) e, ap (λ r. r.payload) e)
lease_keeps row y (inr e) = (ap (λ r. r.id) e, ap (λ r. r.payload) e)

module _ {F : Type 0} (env : Env) (cfg : SystemConfig F) where
  items-HasSent :
      (items : List ContainerLifecycleOutbox) (w : World)
      → ((i : ContainerLifecycleOutbox) → Memᴰ i items → Carries w i)
      → HasSent w
      → HasSent (publish_items env cfg items w).1
  unfolding publish_items
  items-HasSent [] w c h = h
  items-HasSent (i ∷ items) w c h =
      let step = publish_item-Step env cfg i w in
      let w' = (publish_item env cfg i w).1 in
      items-HasSent items w' (λ j there. Step-Carries j i w w' step (c j (tail there)))
        (Step-HasSent i w w' step (c i (head refl)) h)

  module _ (is_stale : ContainerLifecycleOutbox → Bool) where
    leased-Carries :
        (n : ℕ) (i : ContainerLifecycleOutbox) (w : World)
        → ((row : ContainerLifecycleOutbox) → Memᴰ row w.db.outbox → Carries w row)
        → Memᴰ i (leased env cfg is_stale n w)
        → Carries (leased_world env cfg is_stale n w) i
    leased-Carries n i w unique there row h same =
        let (x, in_table, free, e) = mem-leased is_stale n i w.db.outbox there in
        let (y, before, kept) = mem-after_lease is_stale n row w.db.outbox h in
        let (id_y, payload_y) : (row.id ≡ y.id) × (row.payload ≡ y.payload) =
          lease_keeps row y kept in
        payload_y
        ∙ unique x in_table y before (sym id_y ∙ same ∙ ap (λ r. r.id) e)
        ∙ sym (ap (λ r. r.payload) e)

    -- A row of the outbox that is marked as published has its message in the queue, after
    -- publishBatch too, whichever calls of the database and of the broker fail, where rows with the
    -- same id have the same message.
    pub publish_batch-HasSent :
        (w : World)
        → ((row : ContainerLifecycleOutbox) → Memᴰ row w.db.outbox → Carries w row)
        → HasSent w
        → HasSent (publish_batch env cfg is_stale w).1
    publish_batch-HasSent w unique h = elim (batch-cases env cfg is_stale w) [
      | inl idle ↦ rw idle h
      | inr (n, same) ↦ rw same (
          items-HasSent (leased env cfg is_stale n w) (leased_world env cfg is_stale n w)
            (λ i. leased-Carries n i w unique)
            (λ row there shown.
              let (y, before, kept) = mem-after_lease is_stale n row w.db.outbox there in
              elim kept [
                | inl e ↦ rw e (h y before (rw e at shown))
                | inr e ↦
                    let clash : ⊥ =
                      (let wrong : is_published OutboxStatus.publishing ≡ true = rw e at shown in
                        cc) in
                    absurd clash
              ]))
    ]

  -- A row that is ready is sent, while nothing fails.
  ready-sent :
      (i : ContainerLifecycleOutbox) (w : World)
      → IsSteady env
      → ((n : ℕ) → env.publish_fault n ≡ none)
      → IsReady w.db i
      → (publish_item env cfg i w).1.queue ≡ i.payload ∷ w.queue
  unfolding publish_item query get_operation_by_id get_by_id publish
  ready-sent i w steady broker r =
      rw (steady w.db_calls, query)
        (rw (r.found, r.pending)
          (rw (steady (counted_db w).db_calls, query)
            (rw r.row_found (
              rw (broker w.publish_calls, publish)
                (mark-IsMarked env cfg i published none w _ refl).1))))

  items-grow :
      (items : List ContainerLifecycleOutbox) (m : LifecycleMessage) (w : World)
      → Memᴰ m w.queue
      → Memᴰ m (publish_items env cfg items w).1.queue
  unfolding publish_items
  items-grow [] m w h = h
  items-grow (i ∷ items) m w h =
      items-grow items m (publish_item env cfg i w).1
        (queue_grows i m w (publish_item env cfg i w).1 (publish_item-Step env cfg i w) h)

  items-delivered :
      (items : List ContainerLifecycleOutbox) (i : ContainerLifecycleOutbox) (w : World)
      → IsSteady env
      → ((n : ℕ) → env.publish_fault n ≡ none)
      → Memᴰ i items
      → IsReady w.db i
      → Memᴰ i.payload (publish_items env cfg items w).1.queue
  unfolding publish_items
  items-delivered [] i w steady broker h r = elim h [ ]
  items-delivered (j ∷ items) i w steady broker (head e) r =
      items-grow items i.payload (publish_item env cfg j w).1 (
        rw (ready-sent j w steady broker (subst (IsReady w.db) e r)) (head (ap (λ r. r.payload) e)))
  items-delivered (j ∷ items) i w steady broker (tail there) r =
      let w' = (publish_item env cfg j w).1 in
      let (ops, rows) = Step-SameTables j w w' (publish_item-Step env cfg j w) in
      items-delivered items i w' steady broker there
        (IsReady-back i w'.db w.db (sym ops) (sym rows) r)

  -- While the database and the broker answer, publishBatch puts into the queue the message of every
  -- row that is pending, or was left publishing for a minute, whose operation is pending and whose
  -- container exists, where a batch may have as many rows as there are to be sent.
  pub publish_batch-delivers :
      (is_stale : ContainerLifecycleOutbox → Bool) (n : ℕ) (i : ContainerLifecycleOutbox)
      (w : World)
      → IsSteady env
      → ((k : ℕ) → env.publish_fault k ≡ none)
      → cfg.container_create_outbox_batch_size ≡ pos n
      → count (leasable is_stale) w.db.outbox ≤ n
      → Memᴰ i w.db.outbox
      → leasable is_stale i ≡ true
      → IsReady w.db i
      → Memᴰ i.payload (publish_batch env cfg is_stale w).1.queue
  unfolding publish_batch lease_pending_container_outbox transact
  publish_batch-delivers is_stale n i w steady broker size few there free r =
      let same : (publish_batch env cfg is_stale w).1
          ≡ (publish_items env cfg (leased env cfg is_stale n w)
              (leased_world env cfg is_stale n w)).1 =
        rw (steady w.db_calls, transact) (rw size) in
      subst (λ v. Memᴰ i.payload v.queue) (sym same)
        (items-delivered (leased env cfg is_stale n w) (lease_row i)
          (leased_world env cfg is_stale n w) steady broker
          (leases_all is_stale n i w.db.outbox few there free)
          (record {
            operation = r.operation;
            found = r.found;
            pending = r.pending;
            row = r.row;
            row_found = r.row_found;
          }))
