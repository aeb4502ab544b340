-- ===== src/Examples/Queue.antt =====
-- The container queue of backend/internal/core/repository/container.go on a small database.
use docker_cloud_manager.Prelude.{◌≡◌, refl, none, some, List, [], ◌∷◌}
use docker_cloud_manager.Prelude.Int.{pos}
use docker_cloud_manager.AppErrors.{sentinel, timeout}
use docker_cloud_manager.Container.{
  Status, Container, container, ResourceOperation, LifecycleMessage, ContainerLifecycleOutbox, Db,
  OperationKind, OperationStatus, OutboxStatus,
}
use docker_cloud_manager.Container.Store.{
  insert_resource_operation, insert_outbox, unique_violation, foreign_key_violation,
}
use docker_cloud_manager.Result.{err}
use docker_cloud_manager.Container.Queue.Save.{
  insert_container, insert_mounts, insert_operation_of, insert_outbox_of,
  save_with_mounts_operation_and_outbox,
}
use docker_cloud_manager.Container.Queue.{
  claim_pending_operation, complete_operation, requeue_operation, queue_container_operation,
}
use docker_cloud_manager.Container.Queue.Active.{IsConsistent, IsSettled}
use docker_cloud_manager.Container.Queue.Transactions.{
  Transaction, save, queue, claim, complete_done, requeue, apply, run, run-IsConsistent,
  run-IsSettled,
}

abbrev pub web : Container
web = record {
  id = 7;
  owner_id = 1;
  project_id = none;
  docker_id = "abc";
  name = "web";
  image_tag = "nginx:latest";
  internal_port = pos 80;
  domain_prefix = "";
  status = Status.exited;
  desired_status = Status.exited;
  ttl_deadline = none;
  base_memory_reservation = pos 64;
  base_cpu_reservation = pos 100;
  last_error = none;
  last_exit_code = none;
  docker_generation = pos 1;
  network_alias = "web";
  env_vars = "";
  command = [];
  entrypoint = [];
  restart = "";
  healthcheck = none;
}

abbrev pub start_web : ResourceOperation
start_web = record {
  id = 11;
  resource_type = container;
  resource_id = 7;
  owner_id = 1;
  operation = OperationKind.start;
  status = OperationStatus.pending;
  attempts = 0;
  last_error = none;
}

abbrev pub start_message : LifecycleMessage
start_message = record {
  operation_id = 11;
  container_id = 7;
  owner_id = 1;
  operation = OperationKind.start;
  domain_prefix = "";
  internal_port = pos 0;
  previous_status = Status.exited;
}

abbrev pub start_item : ContainerLifecycleOutbox
start_item = record {
  id = 21;
  operation_id = 11;
  container_id = 7;
  payload = start_message;
  status = OutboxStatus.pending;
  attempts = 0;
  last_error = none;
}

abbrev pub idle_db : Db
idle_db = record {
  containers = web ∷ [];
  operations = [];
  outbox = [];
  volumes = [];
  volume_mounts = [];
  images = [];
}

pub idle_db-IsConsistent : IsConsistent idle_db.operations
idle_db-IsConsistent = record { active = tt; ids = tt }

-- A start is queued twice, claimed, put back, claimed again and done; the second request fails.
abbrev start_twice : List Transaction
start_twice =
    queue 7 Status.starting Status.running start_web start_item
    ∷ queue 7 Status.starting Status.running (record start_web { id = 12 })
        (record start_item { id = 22; operation_id = 12 })
    ∷ claim 11 (pos 5)
    ∷ requeue 11 (some (sentinel timeout))
    ∷ claim 11 (pos 5)
    ∷ complete_done 11
    ∷ []

start_twice_result :
    (run start_twice idle_db).operations
    ≡ record start_web { status = OperationStatus.done; attempts = 2 } ∷ []
unfolding run apply queue_container_operation insert_resource_operation insert_outbox
    claim_pending_operation requeue_operation complete_operation
start_twice_result = refl

-- A new container is written with the operation that creates it, and its row cannot be sent twice.
abbrev create_blog : Transaction
create_blog =
    save (record web { id = 8; name = "blog"; docker_id = "" }) []
      (record start_web { id = 12; resource_id = 8; operation = OperationKind.create })
      (record start_item { id = 22; operation_id = 12; container_id = 8 })

blog_is_written :
    (run (create_blog ∷ create_blog ∷ []) idle_db).operations
    ≡ record start_web { id = 12; resource_id = 8; operation = OperationKind.create } ∷ []
unfolding run apply save_with_mounts_operation_and_outbox insert_container insert_mounts
    insert_operation_of insert_outbox_of insert_resource_operation insert_outbox
blog_is_written = refl

-- The message of an operation is written once, and only for an operation that is there.
sent_twice :
    insert_outbox
      (record start_item { id = 23 })
      (record idle_db { operations = start_web ∷ []; outbox = start_item ∷ [] })
    ≡ err unique_violation
unfolding insert_outbox
sent_twice = refl

sent_for_nothing : insert_outbox start_item idle_db ≡ err foreign_key_violation
unfolding insert_outbox
sent_for_nothing = refl

run-IsConsistent_example : IsConsistent (run start_twice idle_db).operations
run-IsConsistent_example = run-IsConsistent start_twice idle_db idle_db-IsConsistent

abbrev done_db : Db
done_db = record idle_db { operations = record start_web { status = OperationStatus.done } ∷ [] }

done_db-IsConsistent : IsConsistent done_db.operations
done_db-IsConsistent = record { active = ((λ e. refl), tt); ids = (refl, tt) }

done_db-IsSettled : IsSettled 11 done_db.operations
done_db-IsSettled = record { there = refl; ended = refl }

run-IsSettled_example : IsSettled 11 (run start_twice done_db).operations
run-IsSettled_example = run-IsSettled start_twice done_db 11 done_db-IsConsistent done_db-IsSettled
