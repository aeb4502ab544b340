-- ===== src/Container/Store.antt =====
-- backend/internal/core/repository/container.go: each method that writes is one transaction, a
-- function from the tables to a value and new tables, or to an error that rolls back. A lost
-- connection is an error of the caller's choice and stands in the worker's model, not here.
use docker_cloud_manager.Prelude.{
  ℕ, Bool, not, ◌&&◌, ◌||◌, Option, none, some, [], ◌∷◌, ◌++◌, String, if◌then◌else◌, ◌==◌, any,
}
use docker_cloud_manager.Prelude.Int.{ℤ}
use docker_cloud_manager.AppErrors.{
  Err, sentinel, new, foreign, ◌⧺◌, message, not_found, conflict, already_exists,
}
use docker_cloud_manager.Result.{Result, ok, err}
use docker_cloud_manager.Container.{
  Status, Container, ResourceType, ResourceOperation, is_active, same_resource_type,
  ContainerLifecycleOutbox, Db, VolumeMount,
}
pub use docker_cloud_manager.Tables.{update_where, find_where, delete_where, or_not_found}
use text.Mathlib.Text.{◌==◌ as str_eq}

abbrev pub Tx : Type 0 → Type 0
Tx A = Db → Result (A × Db)

abbrev pub has_container_id : ℕ → Container → Bool
has_container_id id c = c.id == id

abbrev pub has_operation_id : ℕ → ResourceOperation → Bool
has_operation_id id op = op.id == id

abbrev pub has_outbox_id : ℕ → ContainerLifecycleOutbox → Bool
has_outbox_id id item = item.id == id

-- last_error of a row: the text of the cause, NULL for no cause
abbrev pub nullable_error : Option Err → Option String
nullable_error none = none
nullable_error (some e) = some (message e)

-- An UPDATE of one container by its id, with the check that a row was affected.
abbrev pub update_container : ℕ → (Container → Container) → Tx (Unit {0})
update_container id change db =
    if any (has_container_id id) db.containers
    then ok (tt, record db { containers = update_where (has_container_id id) change db.containers })
    else err (sentinel not_found)

unfoldable pub get_by_id : ℕ → Db → Result Container
get_by_id id db = or_not_found (find_where (has_container_id id) db.containers)

unfoldable pub get_operation_by_id : ℕ → Db → Result ResourceOperation
get_operation_by_id id db = or_not_found (find_where (has_operation_id id) db.operations)

unfoldable pub update_status : ℕ → Status → Tx (Unit {0})
update_status id status = update_container id (λ c. record c { status = status; last_error = none })

unfoldable pub update_status_and_ttl_deadline : ℕ → Status → Option ℤ → Tx (Unit {0})
update_status_and_ttl_deadline id status deadline =
    update_container id
      (λ c. record c { status = status; ttl_deadline = deadline; last_error = none })

unfoldable pub mark_status_error : ℕ → Status → Option Err → Tx (Unit {0})
mark_status_error id status cause =
    update_container id (λ c. record c { status = status; last_error = nullable_error cause })

-- The driver's error 23505, where the repository passes it on as it is.
abbrev pub unique_violation : Err
unique_violation = foreign "pq: duplicate key value violates unique constraint"

-- docker_id is UNIQUE, so is a domain_prefix that is not empty.
abbrev pub docker_id_taken : ℕ → String → Container → Bool
docker_id_taken id docker_id c =
    not (c.id == id) && str_eq c.docker_id docker_id && not (str_eq docker_id "")

abbrev pub domain_prefix_taken : ℕ → String → Container → Bool
domain_prefix_taken id domain_prefix c =
    not (c.id == id) && str_eq c.domain_prefix domain_prefix && not (str_eq domain_prefix "")

unfoldable pub update_docker_id_and_status : ℕ → String → Status → Tx (Unit {0})
update_docker_id_and_status id docker_id status db =
    if any (docker_id_taken id docker_id) db.containers
    then err unique_violation
    else update_container id
        (λ c. record c {
          docker_id = docker_id;
          status = status;
          desired_status = status;
          last_error = none;
        })
        db

unfoldable pub update_docker_id_routing_and_generation : ℕ → String → String → ℤ → ℤ → Tx (Unit {0})
update_docker_id_routing_and_generation id docker_id domain_prefix internal_port generation db =
    if any (docker_id_taken id docker_id) db.containers
    then err (sentinel already_exists)
    else if any (domain_prefix_taken id domain_prefix) db.containers
    then err (new (sentinel already_exists) ("subdomain " ⧺ domain_prefix ⧺ " is already in use"))
    else update_container id
        (λ c. record c {
          docker_id = docker_id;
          domain_prefix = domain_prefix;
          internal_port = internal_port;
          docker_generation = generation;
          last_error = none;
        })
        db

abbrev pub in_container : ℕ → ContainerLifecycleOutbox → Bool
in_container id item = item.container_id == id

abbrev pub mount_of : ℕ → VolumeMount → Bool
mount_of id m = m.container_id == id

-- The outbox rows and the mounts of a container go with it: ON DELETE CASCADE.
unfoldable pub delete_container : ℕ → Tx (Unit {0})
delete_container id db =
    if any (has_container_id id) db.containers
    then ok (
      tt,
      record db {
        containers = delete_where (has_container_id id) db.containers;
        outbox = delete_where (in_container id) db.outbox;
        volume_mounts = delete_where (mount_of id) db.volume_mounts;
      },
    )
    else err (sentinel not_found)

-- An active operation on the resource.
abbrev pub active_on : ResourceType → ℕ → ResourceOperation → Bool
active_on t id op =
    same_resource_type op.resource_type t && op.resource_id == id && is_active op.status

unfoldable pub has_active_operation : ResourceType → ℕ → Db → Bool
has_active_operation t id db = any (active_on t id) db.operations

-- The primary key, and the unique index on the resource of an active operation. The callers give the
-- id and the status.
unfoldable pub insert_resource_operation : ResourceOperation → Tx (Unit {0})
insert_resource_operation op db =
    if any (has_operation_id op.id) db.operations
      || (is_active op.status && any (active_on op.resource_type op.resource_id) db.operations)
    then err (new (sentinel conflict) "resource operation is already in progress")
    else ok (tt, record db { operations = op ∷ db.operations })

abbrev pub of_operation : ℕ → ContainerLifecycleOutbox → Bool
of_operation id item = item.operation_id == id

abbrev pub foreign_key_violation : Err
foreign_key_violation = foreign "pq: insert or update violates foreign key constraint"

-- The primary key, UNIQUE (operation_id), and the rows that the two foreign keys refer to.
unfoldable pub insert_outbox : ContainerLifecycleOutbox → Tx (Unit {0})
insert_outbox item db =
    if any (has_outbox_id item.id) db.outbox || any (of_operation item.operation_id) db.outbox
    then err unique_violation
    else if not (any (has_operation_id item.operation_id) db.operations)
        || not (any (has_container_id item.container_id) db.containers)
    then err foreign_key_violation
    else ok (tt, record db { outbox = db.outbox ++ item ∷ [] })
