-- ===== src/Container/Queue/Save.antt =====
-- backend/internal/core/repository/container.go: SaveWithMountsOperationAndOutbox, with which the
-- service writes a new container, its mounts, and the operation that creates it. The advisory locks
-- only order such transactions, which here run one at a time.
use docker_cloud_manager.Prelude.{
  ℕ, Bool, not, ◌&&◌, ◌||◌, none, List, [], ◌∷◌, ◌++◌, if◌then◌else◌, ◌==◌, any,
}
use docker_cloud_manager.Prelude.Int.{pos, leb_ℤ, ltb_ℤ}
use docker_cloud_manager.AppErrors.{Err, foreign, sentinel, new, already_exists, ◌⧺◌}
use docker_cloud_manager.Result.{ok, err, ◌>>=◌}
use docker_cloud_manager.Container.{
  Container, Volume, VolumeMount, ResourceOperation, ContainerLifecycleOutbox,
}
use docker_cloud_manager.Container.Store.{
  Tx, has_container_id, docker_id_taken, domain_prefix_taken, unique_violation,
  foreign_key_violation, insert_resource_operation, insert_outbox,
}
use text.Mathlib.Text.{◌==◌ as str_eq}

abbrev pub same_name : Container → Container → Bool
same_name c other = other.owner_id == c.owner_id && str_eq other.name c.name

-- `if generation <= 0 { generation = 1 }`; what is not among the columns starts as NULL.
abbrev pub new_row : Container → Container
new_row c = record c {
  docker_generation = if leb_ℤ c.docker_generation (pos 0) then pos 1 else c.docker_generation;
  last_error = none;
  last_exit_code = none;
}

abbrev pub check_violation : Err
check_violation = foreign "pq: new row violates check constraint"

-- The check of the memory, the primary key, and the unique indexes in the order in which they were
-- made. The caller gives the desired status; the table of projects stands elsewhere.
unfoldable pub insert_container : Container → Tx (Unit {0})
insert_container c db =
    if ltb_ℤ c.base_memory_reservation (pos 0)
    then err check_violation
    else if any (has_container_id c.id) db.containers
        || any (docker_id_taken c.id c.docker_id) db.containers
    then err (sentinel already_exists)
    else if any (domain_prefix_taken c.id c.domain_prefix) db.containers
    then err (new (sentinel already_exists) ("subdomain " ⧺ c.domain_prefix ⧺ " is already in use"))
    else if any (same_name c) db.containers
    then err (new (sentinel already_exists) "container name is already in use")
    else ok (tt, record db { containers = new_row c ∷ db.containers })

abbrev pub has_volume_id : ℕ → Volume → Bool
has_volume_id id v = v.id == id

abbrev pub same_mount : VolumeMount → VolumeMount → Bool
same_mount m other = other.container_id == m.container_id && other.volume_id == m.volume_id

-- The primary key of volume_mounts is the container and the volume.
unfoldable pub insert_mount : VolumeMount → Tx (Unit {0})
insert_mount m db =
    if any (same_mount m) db.volume_mounts
    then err unique_violation
    else if not (any (has_container_id m.container_id) db.containers)
        || not (any (has_volume_id m.volume_id) db.volumes)
    then err foreign_key_violation
    else ok (tt, record db { volume_mounts = db.volume_mounts ++ m ∷ [] })

unfoldable pub insert_mounts : List VolumeMount → Tx (Unit {0})
insert_mounts [] db = ok (tt, db)
insert_mounts (m ∷ ms) db = insert_mount m db >>= λ inserted. insert_mounts ms inserted.1

-- `if op.ResourceID != uuid.Nil`
unfoldable pub insert_operation_of : ResourceOperation → Tx (Unit {0})
insert_operation_of op db =
    if op.resource_id == 0 then ok (tt, db) else insert_resource_operation op db

-- `if outbox.OperationID != uuid.Nil`
unfoldable pub insert_outbox_of : ContainerLifecycleOutbox → Tx (Unit {0})
insert_outbox_of item db = if item.operation_id == 0 then ok (tt, db) else insert_outbox item db

unfoldable pub save_with_mounts_operation_and_outbox :
    Container → List VolumeMount → ResourceOperation → ContainerLifecycleOutbox → Tx (Unit {0})
save_with_mounts_operation_and_outbox c mounts op item db = insert_container c db >>= λ saved.
    insert_mounts mounts saved.1 >>= λ mounted.
    insert_operation_of op mounted.1 >>= λ queued. insert_outbox_of item queued.1
