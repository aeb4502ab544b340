-- ===== src/Examples/Outbox.antt =====
-- The outbox worker on a queue with one start.
use docker_cloud_manager.Prelude.{
  Bool, ◌≡◌, ◌≤◌, arith, refl, sym, ap, ◌∙◌, ◌⊎◌, true, false, some, [], ◌∷◌,
}
use docker_cloud_manager.AppErrors.{foreign, message}
use docker_cloud_manager.Container.{ContainerLifecycleOutbox, OutboxStatus}
use docker_cloud_manager.Container.Store.{get_by_id, get_operation_by_id}
use docker_cloud_manager.Container.Action.{Env, World, transact, query, publish}
use docker_cloud_manager.Container.Outbox.{
  leasable, lease_rows, lease_pending_container_outbox, update_container_outbox_status, mark,
  publish_item, publish_items, publish_batch,
}
use docker_cloud_manager.Container.Outbox.Step.{IsReady, is_published}
use docker_cloud_manager.Container.Outbox.Leased.{Memᴰ, head, tail, count}
use docker_cloud_manager.Container.Outbox.Batch.{publish_batch-IsReady}
use docker_cloud_manager.Container.Outbox.Delivery.{
  HasSent, publish_batch-HasSent, publish_batch-delivers,
}
use docker_cloud_manager.Examples.Queue.{web, start_web, start_message, start_item, idle_db}
use docker_cloud_manager.Examples.Settings.{settings}
use docker_cloud_manager.Examples.Worker.{good_engine, busy_world}

abbrev waiting : World
waiting = record busy_world {
  db = record idle_db { operations = start_web ∷ []; outbox = start_item ∷ [] };
}

start_item-IsReady : IsReady waiting.db start_item
start_item-IsReady = record {
  operation = start_web;
  found = refl;
  pending = refl;
  row = web;
  row_found = refl;
}

abbrev never : ContainerLifecycleOutbox → Bool
never _ = false

-- The broker does not confirm: the row is pending again.
abbrev silent_broker : Env
silent_broker = record good_engine { publish_fault = λ n. some (foreign "no confirm") }

not_confirmed :
    (publish_batch silent_broker settings never waiting).1.db.outbox
    ≡ record start_item { attempts = 1; last_error = some "no confirm" } ∷ []
unfolding publish_batch lease_pending_container_outbox lease_rows leasable publish_items
    publish_item transact query get_operation_by_id get_by_id publish mark
    update_container_outbox_status message
not_confirmed = refl

sends_start : (publish_batch good_engine settings never waiting).1.queue ≡ start_message ∷ []
unfolding publish_batch lease_pending_container_outbox lease_rows leasable publish_items
    publish_item transact query get_operation_by_id get_by_id publish mark
    update_container_outbox_status message
sends_start = refl

start_message-queued : Memᴰ start_message (publish_batch good_engine settings never waiting).1.queue
start_message-queued = rw sends_start (head refl)

publish_batch-IsReady_example :
    Memᴰ start_message waiting.queue
    ⊎ ((item : ContainerLifecycleOutbox) × Memᴰ item waiting.db.outbox
        × (leasable never item ≡ true)
        × (item.payload ≡ start_message)
        × IsReady waiting.db item)
publish_batch-IsReady_example =
    publish_batch-IsReady good_engine settings never start_message waiting start_message-queued

one_row :
    (row other : ContainerLifecycleOutbox)
    → Memᴰ row waiting.db.outbox
    → Memᴰ other waiting.db.outbox
    → other.id ≡ row.id
    → other.payload ≡ row.payload
one_row row other (head e) (head f) same = ap (λ r. r.payload) (f ∙ sym e)
one_row row other (head e) (tail h) same = elim h [ ]
one_row row other (tail h) there same = elim h [ ]

none_published : HasSent waiting
none_published row (head e) shown =
    let clash : ⊥ = (let wrong : is_published OutboxStatus.pending ≡ true = rw e at shown in cc) in
    absurd clash
none_published row (tail h) shown = elim h [ ]

start_item-leasable : leasable never start_item ≡ true
unfolding leasable
start_item-leasable = refl

one_leasable : count (leasable never) waiting.db.outbox ≤ 1
unfolding leasable
one_leasable = omega arith

publish_batch-HasSent_example : HasSent (publish_batch good_engine settings never waiting).1
publish_batch-HasSent_example =
    publish_batch-HasSent good_engine settings never waiting
      (λ row there other. one_row row other there) none_published

publish_batch-delivers_example :
    Memᴰ start_message (publish_batch good_engine settings never waiting).1.queue
publish_batch-delivers_example =
    publish_batch-delivers good_engine settings never 1 start_item waiting (λ n. refl) (λ n. refl)
      refl one_leasable (head refl) start_item-leasable start_item-IsReady
