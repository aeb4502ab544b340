-- ===== src/Container/Resources.antt =====
-- backend/internal/core/repository: the queries of container.go, volume.go and image.go on the
-- volumes and images that a container uses.
use docker_cloud_manager.Prelude.{
  ℕ, Bool, Option, none, some, List, [], ◌∷◌, any, if◌then◌else◌, ◌==◌,
}
use docker_cloud_manager.AppErrors.{Err, sentinel, not_found}
use docker_cloud_manager.Result.{Result, ok, err}
use docker_cloud_manager.Container.{
  Volume, VolumeStatus, VolumeMount, VolumeMountParams, Image, ImageStatus, Db,
}
use docker_cloud_manager.Tables.{filter_where}
use docker_cloud_manager.Container.Store.{Tx, update_where, find_where, mount_of, nullable_error}

abbrev pub has_volume_id : ℕ → Volume → Bool
has_volume_id id v = v.id == id

abbrev pub has_image_id : ℕ → Image → Bool
has_image_id id i = i.id == id

-- JOIN volumes v ON v.id = vm.volume_id; v.id is the primary key.
unfoldable pub joined :
    Option Volume → VolumeMount → List VolumeMountParams → List VolumeMountParams
joined none m rest = rest
joined (some v) m rest =
    record {
      volume_id = m.volume_id;
      volume_name = v.docker_name;
      mount_path = m.mount_path;
      is_readonly = m.is_readonly;
    }
    ∷ rest

unfoldable pub join_volumes : List Volume → List VolumeMount → List VolumeMountParams
join_volumes volumes [] = []
join_volumes volumes (m ∷ ms) =
    joined (find_where (has_volume_id m.volume_id) volumes) m (join_volumes volumes ms)

unfoldable pub get_mounts_by_container_id : ℕ → Db → Result (List VolumeMountParams)
get_mounts_by_container_id container_id db =
    ok (join_volumes db.volumes (filter_where (mount_of container_id) db.volume_mounts))

-- MarkStatusError of backend/internal/core/repository/volume.go
unfoldable pub mark_volume_status_error : ℕ → VolumeStatus → Option Err → Tx (Unit {0})
mark_volume_status_error id status cause db =
    if any (has_volume_id id) db.volumes
    then ok (
      tt,
      record db {
        volumes =
            update_where (has_volume_id id)
              (λ v. record v { status = status; last_error = nullable_error cause }) db.volumes;
      },
    )
    else err (sentinel not_found)

-- MarkStatusError of backend/internal/core/repository/image.go
unfoldable pub mark_image_status_error : ℕ → ImageStatus → Option Err → Tx (Unit {0})
mark_image_status_error id status cause db =
    if any (has_image_id id) db.images
    then ok (
      tt,
      record db {
        images =
            update_where (has_image_id id)
              (λ i. record i { status = status; last_error = nullable_error cause }) db.images;
      },
    )
    else err (sentinel not_found)

-- List of backend/internal/core/repository/image.go, without a limit
abbrev pub owned_image : ℕ → Image → Bool
owned_image owner_id i = i.owner_id == owner_id

unfoldable pub list_images : ℕ → Db → Result (List Image)
list_images owner_id db = ok (filter_where (owned_image owner_id) db.images)
