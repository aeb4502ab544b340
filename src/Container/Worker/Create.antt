-- ===== src/Container/Worker/Create.antt =====
-- backend/internal/core/service/container_create_async.go, ExecuteQueuedCreate: the container of a
-- queued create is made by the engine, with its volumes, its network and its image.
use docker_cloud_manager.Prelude.{
  ℕ, Bool, true, false, not, ◌||◌, Option, none, some, List, [], ◌∷◌, String, map, if◌then◌else◌,
}
use docker_cloud_manager.Prelude.Int.{ℤ, pos, ltb_ℤ, leb_ℤ, mul64, quot}
use docker_cloud_manager.AppErrors.{Err, sentinel, new, wrap, is, ◌⧺◌, bad_request, timeout}
use docker_cloud_manager.Result.{Result, ok, err, ◌>>=◌}
use docker_cloud_manager.Config.{SystemConfig}
use docker_cloud_manager.ImageRef.{parse_tag, custom_full_tag}
use docker_cloud_manager.Container.{
  Status, Container, OperationStatus, VolumeMountParams, VolumeStatus, Image, ImageStatus,
  available,
}
use docker_cloud_manager.Container.Store.{find_where, mark_status_error}
use docker_cloud_manager.Container.Queue.{complete_operation}
use docker_cloud_manager.Container.Resources.{
  mark_volume_status_error, mark_image_status_error, list_images,
}
use docker_cloud_manager.Container.Action.{
  Env, Action, return, raise, on, ◌≫◌, transact, query, command, ContainerMountSpec,
  ContainerRuntimeSpec, inspect_volume,
}
use docker_cloud_manager.Container.Worker.{
  normalize_container_runtime_error, resource_unavailable_error, resource_missing_error,
  requeue_queued_create_if_retryable,
}
use docker_cloud_manager.Container.Worker.Expose.{project_id_of, alias_of}
use Prim.Native.String.{slice}
use text.Mathlib.Text.{◌==◌ as str_eq}

-- Of the answer of resolveQueuedCreateImage: the tag, and the custom image if it is one.
pub record ResolvedImage : Type 0 where
  pub actual_image_tag : String
  pub custom_image : Option Image

abbrev pub is_available : ImageStatus → Bool
is_available available = true
is_available _ = false

unfoldable pub cpu_quota_from_millicores : ℤ → ℤ → ℤ
cpu_quota_from_millicores millicores period =
    if leb_ℤ millicores (pos 0) || leb_ℤ period (pos 0)
    then pos 0
    else quot (mul64 millicores period) 1000

abbrev pub mount_spec : VolumeMountParams → ContainerMountSpec
mount_spec m = record {
  volume_name = m.volume_name;
  target = m.mount_path;
  read_only = m.is_readonly;
}

abbrev pub env_entry : String × String → String
env_entry (k, v) = k ⧺ "=" ⧺ v

abbrev pub create_mismatch : Err
create_mismatch = new (sentinel bad_request) "container create message does not match operation"

abbrev pub attempts_error : Err
attempts_error = new (sentinel timeout) "container create attempts exhausted"

-- The error of a pull, as it is returned.
unfoldable pub pull_error : Err → Err
pull_error e =
    let shown = normalize_container_runtime_error e in
    if is shown timeout
    then shown
    else wrap (sentinel bad_request) "image could not be pulled" shown

module _ {F : Type 0} (env : Env) (cfg : SystemConfig F) where
  unfoldable pub fail_queued_create : ℕ → ℕ → Err → Action (Unit {0})
  fail_queued_create operation_id container_id cause =
      let shown = some (normalize_container_runtime_error cause) in
      transact env (mark_status_error container_id Status.error shown)
      ≫ transact env (complete_operation operation_id OperationStatus.failed shown)

  -- `s.failQueuedCreate(…); return err`
  unfoldable pub fail_create : ℕ → ℕ → Err → Action (Unit {0})
  fail_create operation_id container_id e = fail_queued_create operation_id container_id e ≫ raise e

  -- `if s.requeueQueuedCreateIfRetryable(…) { return err }; s.failQueuedCreate(…); return err`
  unfoldable pub requeue_or_fail_create : ℕ → ℕ → Err → Action (Unit {0})
  requeue_or_fail_create operation_id container_id e =
      on (requeue_queued_create_if_retryable env cfg operation_id e) raise
        λ again. if again then raise e else fail_create operation_id container_id e

  unfoldable pub mark_volume_missing : ℕ → Action (Unit {0})
  mark_volume_missing id =
      transact env
        (mark_volume_status_error id VolumeStatus.missing (some (resource_missing_error "volume")))

  unfoldable pub mark_image_missing : ℕ → Action (Unit {0})
  mark_image_missing id =
      transact env
        (mark_image_status_error id ImageStatus.missing (some (resource_missing_error "image")))

  unfoldable pub inspect_queued_create_volumes : List VolumeMountParams → Action (Unit {0})
  inspect_queued_create_volumes [] = return tt
  inspect_queued_create_volumes (m ∷ ms) =
      on (command env (inspect_volume m.volume_name))
        (λ e.
          if env.is_not_found e
          then (mark_volume_missing m.volume_id ≫ raise (resource_unavailable_error "volume"))
          else raise e)
        (λ _. inspect_queued_create_volumes ms)

  -- The image of the user with this tag, where there is one.
  unfoldable pub resolve_among : Container → List Image → Result ResolvedImage
  resolve_among c user_images =
      let (base_name, version) = parse_tag c.image_tag in
      let tag = base_name ⧺ ":" ⧺ version in
      elim (find_where (λ i. str_eq i.tag tag) user_images) [
        | none ↦ ok (record { actual_image_tag = tag; custom_image = none })
        | some image ↦
            if not (is_available image.status)
            then err (resource_unavailable_error "image")
            else ok (record {
              actual_image_tag =
                  custom_full_tag cfg.registry_public_url (env.uuid_string c.owner_id) base_name
                    version;
              custom_image = some image;
            })
      ]

  abbrev pub lift {ℓ} : {T : Type ℓ} → Result T → Action T
  lift r w = (r, w)

  unfoldable pub resolve_queued_create_image : Container → Action ResolvedImage
  resolve_queued_create_image c =
      on (query env (list_images c.owner_id)) (λ _. lift (resolve_among c []))
        λ user_images. lift (resolve_among c user_images)

  unfoldable pub env_list_of : Container → Result (List String)
  env_list_of c =
      if str_eq c.env_vars ""
      then ok []
      else env.unmarshal_env c.env_vars >>= λ env_map. ok (map env_entry env_map)

  unfoldable pub queued_create_runtime_spec :
      Container → List VolumeMountParams → String → String → Result ContainerRuntimeSpec
  queued_create_runtime_spec c mounts actual_image_tag network_name = env_list_of c >>= λ env_list.
      ok (record {
        container_id = env.uuid_string c.id;
        owner_id = env.uuid_string c.owner_id;
        project_id = project_id_of env cfg c.project_id;
        generation = c.docker_generation;
        container_name = "usr_" ⧺ slice (env.uuid_string c.id) 0 12;
        network_alias = alias_of c;
        image_name = actual_image_tag;
        network_name = network_name;
        domain = if str_eq c.domain_prefix "" then "" else c.domain_prefix ⧺ "." ⧺ cfg.base_domain;
        internal_port = c.internal_port;
        env_vars = env_list;
        memory_limit_bytes = c.base_memory_reservation;
        memory_reservation = c.base_memory_reservation;
        cpu_shares = cfg.default_cpu_shares;
        cpu_quota =
            cpu_quota_from_millicores
              (if ltb_ℤ (pos 0) c.base_cpu_reservation
                then c.base_cpu_reservation
                else cfg.default_cpu_reservation)
              cfg.container_cpu_period;
        cpu_period = cfg.container_cpu_period;
        pids_limit = cfg.container_pids_limit;
        proxy_network_name = cfg.proxy_network_name;
        volume_mounts = map mount_spec mounts;
        max_log_size = cfg.max_log_size;
        max_log_files = cfg.max_log_files;
        storage_quota = cfg.container_disk_quota;
        command = c.command;
        entrypoint = c.entrypoint;
        restart = c.restart;
        healthcheck = c.healthcheck;
      })
