-- ===== src/Container.antt =====
-- backend/internal/core/model: the rows of the tables that the container lifecycle reads and
-- writes. A uuid is a number, `uuid.Nil` is 0, and the times that only record when a row was last
-- written are left out.
pub mod Store
pub mod Queue
pub mod Action
pub mod Worker
pub mod Events
pub mod Requests
pub mod Outbox
pub mod Resources
use docker_cloud_manager.Prelude.{ℕ, Bool, true, false, Option, List, String}
use docker_cloud_manager.Prelude.Int.{ℤ}

-- The values of `Container.Status` and `Container.DesiredStatus`; `unset` is the empty string.
pub data Status : Type 0 where
  unset pending creating created starting running stopping exited exposing : Status
  error missing deleting reconciling : Status

unfoldable pub Status-discrete : Discrete Status
Status-discrete = hlevel

pub record Healthcheck : Type 0 where
  pub test : List String
  pub interval : ℤ
  pub timeout : ℤ
  pub retries : ℤ
  pub start_period : ℤ

-- internal_port is an int, env_vars is the text of a JSON object; docker_id and domain_prefix are "" where there is none.
pub record Container : Type 0 where
  pub id : ℕ
  pub owner_id : ℕ
  pub project_id : Option ℕ
  pub docker_id : String
  pub name : String
  pub image_tag : String
  pub internal_port : ℤ
  pub domain_prefix : String
  pub status : Status
  pub desired_status : Status
  pub ttl_deadline : Option ℤ
  pub base_memory_reservation : ℤ
  pub base_cpu_reservation : ℤ
  pub last_error : Option String
  pub last_exit_code : Option ℤ
  pub docker_generation : ℤ
  pub network_alias : String
  pub env_vars : String
  pub command : List String
  pub entrypoint : List String
  pub restart : String
  pub healthcheck : Option Healthcheck

pub data VolumeStatus : Type 0 where
  creating available deleting missing error : VolumeStatus

pub record Volume : Type 0 where
  pub id : ℕ
  pub owner_id : ℕ
  pub docker_name : String
  pub status : VolumeStatus
  pub last_error : Option String

pub record VolumeMount : Type 0 where
  pub container_id : ℕ
  pub volume_id : ℕ
  pub mount_path : String
  pub is_readonly : Bool

pub record VolumeMountParams : Type 0 where
  pub volume_id : ℕ
  pub volume_name : String
  pub mount_path : String
  pub is_readonly : Bool

pub data ImageStatus : Type 0 where
  building available deleting missing error : ImageStatus

pub record Image : Type 0 where
  pub id : ℕ
  pub owner_id : ℕ
  pub tag : String
  pub size_mb : ℤ
  pub status : ImageStatus
  pub last_error : Option String

pub data ResourceType : Type 0 where
  container volume image project build : ResourceType

pub data OperationKind : Type 0 where
  create start stop delete expose : OperationKind

pub data OperationStatus : Type 0 where
  pending running done failed : OperationStatus

pub record ResourceOperation : Type 0 where
  pub id : ℕ
  pub resource_type : ResourceType
  pub resource_id : ℕ
  pub owner_id : ℕ
  pub operation : OperationKind
  pub status : OperationStatus
  pub attempts : ℕ
  pub last_error : Option String

-- backend/pkg/containerqueue: the message of the queue, less its trace fields.
pub record LifecycleMessage : Type 0 where
  pub operation_id : ℕ
  pub container_id : ℕ
  pub owner_id : ℕ
  pub operation : OperationKind
  pub domain_prefix : String
  pub internal_port : ℤ
  pub previous_status : Status

pub data OutboxStatus : Type 0 where
  pending publishing published discarded : OutboxStatus

-- exchange and routing_key are constants of backend/pkg/containerqueue.
pub record ContainerLifecycleOutbox : Type 0 where
  pub id : ℕ
  pub operation_id : ℕ
  pub container_id : ℕ
  pub payload : LifecycleMessage
  pub status : OutboxStatus
  pub attempts : ℕ
  pub last_error : Option String

-- The tables containers, resource_operations, container_lifecycle_queue_outbox, volumes,
-- volume_mounts and images; the newest operation and the newest image stand first.
pub record Db : Type 0 where
  pub containers : List Container
  pub operations : List ResourceOperation
  pub outbox : List ContainerLifecycleOutbox
  pub volumes : List Volume
  pub volume_mounts : List VolumeMount
  pub images : List Image

-- status IN ('pending', 'running')
abbrev pub is_active : OperationStatus → Bool
is_active pending = true
is_active running = true
is_active done = false
is_active failed = false

abbrev pub is_pending : OperationStatus → Bool
is_pending pending = true
is_pending _ = false

abbrev pub is_running : OperationStatus → Bool
is_running running = true
is_running _ = false

abbrev pub same_resource_type : ResourceType → ResourceType → Bool
same_resource_type container container = true
same_resource_type volume volume = true
same_resource_type image image = true
same_resource_type project project = true
same_resource_type build build = true
same_resource_type _ _ = false

abbrev pub is_container : ResourceType → Bool
is_container container = true
is_container _ = false

abbrev pub is_create : OperationKind → Bool
is_create create = true
is_create _ = false
