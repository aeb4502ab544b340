-- ===== src/Container/Action.antt =====
-- The calls that the handlers of backend/internal/core/service make: to the repository, whose
-- connection may fail at any call, and to the Docker engine, which the repository does not
-- implement: what it answers is a parameter, and what it was asked to do is kept in a log.
pub mod Keeps
use docker_cloud_manager.Effect.{Effect}
pub use docker_cloud_manager.Effect.{return, raise, go_on, on, ◌≫◌}
use docker_cloud_manager.Prelude.{
  ℕ, ◌+◌, Bool, true, Option, none, some, List, ◌∷◌, String, if◌then◌else◌,
}
use docker_cloud_manager.Prelude.Int.{ℤ}
use docker_cloud_manager.AppErrors.{Err}
use docker_cloud_manager.Result.{Result, ok, err}
use docker_cloud_manager.Container.{Db, LifecycleMessage, Healthcheck}

pub record ContainerMountSpec : Type 0 where
  pub volume_name : String
  pub target : String
  pub read_only : Bool

pub record ContainerState : Type 0 where
  pub running : Bool
  pub status : String
  pub exit_code : ℤ
  pub oom_killed : Bool
  pub health_status : Option String

pub record ContainerInspection : Type 0 where
  pub name : String
  pub image : String
  pub env : List String
  pub command : List String
  pub entrypoint : List String
  pub memory_limit_bytes : ℤ
  pub memory_reservation : ℤ
  pub cpu_shares : ℤ
  pub cpu_quota : ℤ
  pub cpu_period : ℤ
  pub restart : String
  pub mounts : List ContainerMountSpec
  pub healthcheck : Option Healthcheck
  pub state : ContainerState

-- Less MemorySwapMultiplier, a float.
pub record ContainerRuntimeSpec : Type 0 where
  pub container_id : String
  pub owner_id : String
  pub project_id : String
  pub generation : ℤ
  pub container_name : String
  pub network_alias : String
  pub image_name : String
  pub network_name : String
  pub domain : String
  pub internal_port : ℤ
  pub env_vars : List String
  pub memory_limit_bytes : ℤ
  pub memory_reservation : ℤ
  pub cpu_shares : ℤ
  pub cpu_quota : ℤ
  pub cpu_period : ℤ
  pub pids_limit : ℤ
  pub proxy_network_name : String
  pub volume_mounts : List ContainerMountSpec
  pub max_log_size : String
  pub max_log_files : String
  pub storage_quota : String
  pub command : List String
  pub entrypoint : List String
  pub restart : String
  pub healthcheck : Option Healthcheck

pub data DockerCall : Type 0 where
  start_container : String → DockerCall
  stop_container : String → ℤ → DockerCall
  remove_container : String → DockerCall
  inspect_container : String → DockerCall
  create_container : ContainerRuntimeSpec → DockerCall
  remove_network : ℕ → DockerCall
  ensure_user_network : String → DockerCall
  inspect_volume : String → DockerCall
  image_exists : String → DockerCall
  pull_image : String → DockerCall
  remove_image : String → DockerCall

-- The engine, the database connection, the message broker, the clock. `db_fault n` is the error of the n-th call of
-- the repository where the connection fails, `docker_fault n` that of the n-th call of the engine;
-- `publish_fault n` is the error of the n-th message published, and `publish_reaches n` tells whether
-- the broker has the message for all that; `unmarshal_env` is json.Unmarshal
-- into a map, whose entries come in the order of a range over it; `uuid_string` and `int_string`
-- print.
pub record Env : Type 0 where
  pub db_fault : ℕ → Option Err
  pub docker_fault : ℕ → Option Err
  pub publish_fault : ℕ → Option Err
  pub publish_reaches : ℕ → Bool
  pub is_not_found : Err → Bool
  pub inspection : ℕ → ContainerInspection
  pub new_docker_id : ℕ → String
  pub has_image : ℕ → Bool
  pub free_disk : Option (Result ℤ)
  pub unmarshal_env : String → Result (List (String × String))
  pub now : ℤ
  pub uuid_string : ℕ → String
  pub int_string : ℤ → String

-- `log` and `queue`, the messages that the broker has, are newest first.
pub record World : Type 0 where
  pub db : Db
  pub db_calls : ℕ
  pub docker_calls : ℕ
  pub log : List DockerCall
  pub publish_calls : ℕ
  pub queue : List LifecycleMessage
  pub rebalance_requested : Bool

abbrev pub Action {ℓ} : Type ℓ → Type ℓ
Action T = Effect World T

abbrev pub counted_db : World → World
counted_db w = record w { db_calls = w.db_calls + 1 }

abbrev pub settle {ℓ} : {T : Type ℓ} → World → Result (T × Db) → Result T × World
settle w (err e) = (err e, w)
settle w (ok (value, db)) = (ok value, record w { db = db })

unfoldable pub transact {ℓ} : {T : Type ℓ} → Env → (Db → Result (T × Db)) → Action T
transact env transaction w = elim (env.db_fault w.db_calls) [
  | some e ↦ (err e, counted_db w)
  | none ↦ settle (counted_db w) (transaction w.db)
]

unfoldable pub query {ℓ} : {T : Type ℓ} → Env → (Db → Result T) → Action T
query env read w = elim (env.db_fault w.db_calls) [
  | some e ↦ (err e, counted_db w)
  | none ↦ (read w.db, counted_db w)
]

-- A call of the engine that answers the value given, where it does not fail.
unfoldable pub docker {ℓ} : {T : Type ℓ} → Env → DockerCall → (ℕ → T) → Action T
docker env call answer w =
    let asked = record w { docker_calls = w.docker_calls + 1; log = call ∷ w.log } in
    elim (env.docker_fault w.docker_calls) [
      | some e ↦ (err e, asked)
      | none ↦ (ok (answer w.docker_calls), asked)
    ]

-- backend/internal/core/infrastructure/rabbitmq/publisher.go: a message for the exchange of the
-- container queue.
unfoldable pub publish : Env → LifecycleMessage → Action (Unit {0})
publish env msg w =
    let called = record w { publish_calls = w.publish_calls + 1 } in
    let sent = record called { queue = msg ∷ w.queue } in
    elim (env.publish_fault w.publish_calls) [
      | some e ↦ (err e, if env.publish_reaches w.publish_calls then sent else called)
      | none ↦ (ok tt, sent)
    ]

abbrev pub request_rebalance : Action (Unit {0})
request_rebalance w = (ok tt, record w { rebalance_requested = true })

-- A call of the engine that answers nothing but success.
abbrev pub command : Env → DockerCall → Action (Unit {0})
command env call = docker env call (λ _. tt)
