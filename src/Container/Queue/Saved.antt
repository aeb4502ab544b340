-- ===== src/Container/Queue/Saved.antt =====
-- What the inserts of a new container do to the table of operations.
use docker_cloud_manager.Prelude.{
  ◌≡◌, refl, sym, not, ◌||◌, List, [], ◌∷◌, any, ◌==◌, Bool-cases, inl, inr,
}
use mathlib.Core.Path.{subst}
use docker_cloud_manager.Prelude.Int.{pos, ltb_ℤ}
use docker_cloud_manager.Result.{Result, ok, err, ◌>>=◌}
use docker_cloud_manager.Container.{
  Container, VolumeMount, ResourceOperation, ContainerLifecycleOutbox, Db,
}
use docker_cloud_manager.Container.Store.{
  has_container_id, has_operation_id, has_outbox_id, of_operation, docker_id_taken,
  domain_prefix_taken, insert_resource_operation, insert_outbox,
}
use docker_cloud_manager.Container.Queue.Save.{
  insert_container, same_name, has_volume_id, same_mount, insert_mount, insert_mounts,
  insert_operation_of, insert_outbox_of, save_with_mounts_operation_and_outbox,
}
use docker_cloud_manager.Container.Queue.Active.{TableStep, stays, inserts, is_taken}

-- Where a statement succeeds, the operations are still these.
abbrev Kept : List ResourceOperation → Result (Unit {0} × Db) → Type 0
Kept ops (err e) = Unit
Kept ops (ok r) = r.1.operations ≡ ops

-- Where a statement succeeds, the operations have taken one step at most.
abbrev pub StepTo : List ResourceOperation → Result (Unit {0} × Db) → Type 0
StepTo ops (err e) = Unit
StepTo ops (ok r) = TableStep ops r.1.operations

module _ (ops : List ResourceOperation) (next : Unit {0} × Db → Result (Unit {0} × Db)) where
  Kept-bind :
      (r : Result (Unit {0} × Db))
      → Kept ops r
      → ((x : Unit {0} × Db) → x.1.operations ≡ ops → Kept ops (next x))
      → Kept ops (r >>= next)
  Kept-bind (err e) h k = tt
  Kept-bind (ok x) h k = k x h

  StepTo-bind :
      (r : Result (Unit {0} × Db))
      → Kept ops r
      → ((x : Unit {0} × Db) → x.1.operations ≡ ops → StepTo ops (next x))
      → StepTo ops (r >>= next)
  StepTo-bind (err e) h k = tt
  StepTo-bind (ok x) h k = k x h

  StepTo-then :
      (r : Result (Unit {0} × Db))
      → StepTo ops r
      → ((x : Unit {0} × Db) → Kept x.1.operations (next x))
      → StepTo ops (r >>= next)
  StepTo-then (err e) h k = tt
  StepTo-then (ok x) h k = after (next x) (k x)
    where
      after : (s : Result (Unit {0} × Db)) → Kept x.1.operations s → StepTo ops s
      after (err e) same = tt
      after (ok y) same = subst (TableStep ops) (sym same) h

insert_container-Kept : (c : Container) (db : Db) → Kept db.operations (insert_container c db)
unfolding insert_container
insert_container-Kept c db = elim (Bool-cases (ltb_ℤ c.base_memory_reservation (pos 0))) [
  | inl p ↦ rw p tt
  | inr n ↦
      rw n
        (elim (Bool-cases (
          any (has_container_id c.id) db.containers
          || any (docker_id_taken c.id c.docker_id) db.containers)) [
            | inl p ↦ rw p tt
            | inr n ↦
                rw n
                  (elim (Bool-cases
                    (any (domain_prefix_taken c.id c.domain_prefix) db.containers)) [
                      | inl p ↦ rw p tt
                      | inr n ↦ rw n (elim (Bool-cases (any (same_name c) db.containers)) [
                        | inl p ↦ rw p tt
                        | inr n ↦ rw n (refl)
                      ])
                    ])
          ])
]

insert_mount-Kept : (m : VolumeMount) (db : Db) → Kept db.operations (insert_mount m db)
unfolding insert_mount
insert_mount-Kept m db = elim (Bool-cases (any (same_mount m) db.volume_mounts)) [
  | inl p ↦ rw p tt
  | inr n ↦
      rw n
        (elim (Bool-cases (
          not (any (has_container_id m.container_id) db.containers)
          || not (any (has_volume_id m.volume_id) db.volumes))) [
            | inl p ↦ rw p tt
            | inr n ↦ rw n (refl)
          ])
]

insert_mounts-Kept : (ms : List VolumeMount) (db : Db) → Kept db.operations (insert_mounts ms db)
unfolding insert_mounts
insert_mounts-Kept [] db = refl
insert_mounts-Kept (m ∷ ms) db =
    Kept-bind db.operations (λ x. insert_mounts ms x.1) (insert_mount m db) (insert_mount-Kept m db)
      λ x same. subst (λ ops. Kept ops (insert_mounts ms x.1)) same (insert_mounts-Kept ms x.1)

insert_operation_of-StepTo :
    (op : ResourceOperation) (db : Db) → StepTo db.operations (insert_operation_of op db)
unfolding insert_operation_of insert_resource_operation
insert_operation_of-StepTo op db = elim (Bool-cases (op.resource_id == 0)) [
  | inl absent ↦ rw absent stays
  | inr given ↦ rw given (elim (Bool-cases (is_taken op db.operations)) [
    | inl taken ↦ rw taken tt
    | inr free ↦ rw free (inserts op free)
  ])
]

insert_outbox_of-Kept :
    (item : ContainerLifecycleOutbox) (db : Db) → Kept db.operations (insert_outbox_of item db)
unfolding insert_outbox_of insert_outbox
insert_outbox_of-Kept item db = elim (Bool-cases (item.operation_id == 0)) [
  | inl absent ↦ rw absent refl
  | inr given ↦
      rw given
        (elim (Bool-cases (
          any (has_outbox_id item.id) db.outbox
          || any (of_operation item.operation_id) db.outbox)) [
            | inl p ↦ rw p tt
            | inr n ↦
                rw n
                  (elim (Bool-cases (
                    not (any (has_operation_id item.operation_id) db.operations)
                    || not (any (has_container_id item.container_id) db.containers))) [
                      | inl p ↦ rw p tt
                      | inr n ↦ rw n (refl)
                    ])
          ])
]

-- A new container adds its operation to the table, or the transaction fails.
pub save-StepTo :
    (c : Container) (mounts : List VolumeMount) (op : ResourceOperation)
    (item : ContainerLifecycleOutbox) (db : Db)
    → StepTo db.operations (save_with_mounts_operation_and_outbox c mounts op item db)
unfolding save_with_mounts_operation_and_outbox
save-StepTo c mounts op item db =
    let queued : (x : Unit {0} × Db)
        → StepTo x.1.operations (insert_operation_of op x.1 >>= λ y. insert_outbox_of item y.1) =
      λ x.
        StepTo-then x.1.operations (λ y. insert_outbox_of item y.1) (insert_operation_of op x.1)
          (insert_operation_of-StepTo op x.1) (λ y. insert_outbox_of-Kept item y.1) in
    StepTo-bind db.operations _ (insert_container c db) (insert_container-Kept c db) λ x same.
      StepTo-bind db.operations _ (insert_mounts mounts x.1)
        (subst (λ ops. Kept ops (insert_mounts mounts x.1)) same (insert_mounts-Kept mounts x.1))
        λ y kept.
          subst (λ ops. StepTo ops (insert_operation_of op y.1 >>= λ z. insert_outbox_of item z.1))
            kept (queued y)
