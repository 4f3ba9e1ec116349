-- ===== src/Storage/Upload.antt =====
-- server/src/domain_storage.rs: the upload of files, its status, and the removal of versions. `now`
-- is the time of the call.
use spa_server.Base.{ℕ, Bool, true, false, not, Option, none, some}
use spa_server.Base.{◌==◌, if◌then◌else◌, is_empty, nat_eq, list_eq, option_eq}
use spa_server.Base.Dict
use spa_server.Base.Dict.{Dict}
use spa_server.Base.Text.{Text}
use spa_server.FilePath.{FilePath, join, parent}
use spa_server.FileSystem.{
  file, FileSystem, exists, create_dir_all, create, remove_file, remove_dir_all,
}
use spa_server.Crates.{Crates}
use spa_server.Storage.{
  path_error, no_parent, not_uploading, other_uploading, in_serving, io_error, Result, ok, err,
  Site, UploadingStatus, uploading, finish, version_path, get_version_path, marker_path,
  get_domain_serving_version, check_is_in_upload_process,
}

-- `write_all` on a file that `File::open` opened for reading fails, unless there is nothing to write.
unfoldable pub write_opened : Text → FileSystem → Result (Unit {0}) × FileSystem
write_opened content fs = if is_empty content then (ok tt, fs) else (err io_error, fs)

-- `write_all` on a file that `File::create` made.
unfoldable pub write_created :
    FilePath → Text → ℕ → FileSystem → Option FileSystem → Result (Unit {0}) × FileSystem
write_created path content now fs none = (err io_error, fs)
write_created path content now fs (some made) =
    (ok tt, Dict.insert path (file (record { content = content; modified = now })) made)

unfoldable pub write_file : FilePath → Text → ℕ → FileSystem → Result (Unit {0}) × FileSystem
unfolding write_opened write_created exists create
write_file path content now fs =
    if exists fs path
    then write_opened content fs
    else write_created path content now fs (create fs path now)

-- The body of `save_file` behind its guard, from the path that `sanitize_path` gives.
unfoldable pub save_at : Option FilePath → Text → ℕ → FileSystem → Result (Unit {0}) × FileSystem
unfolding parent exists create_dir_all write_file
save_at none content now fs = (err path_error, fs)
save_at (some path) content now fs = elim (parent path) [
  | none ↦ (err no_parent, fs)
  | some above ↦
      if exists fs above then write_file path content now fs else elim (create_dir_all fs above) [
        | none ↦ (err io_error, fs)
        | some made ↦ write_file path content now made
      ]
]

abbrev on_disk {ℓ} : {A : Type ℓ} → Site → A × FileSystem → A × Site
on_disk site (r, fs) = (r, record site { fs = fs })

module _ (crates : Crates) where
  unfoldable pub save_file : Site → Text → ℕ → Text → Text → ℕ → Result (Unit {0}) × Site
  unfolding check_is_in_upload_process get_version_path save_at
  save_file site domain version path content now =
      if check_is_in_upload_process site.storage domain version
      then on_disk site (
          save_at (crates.sanitize_path (get_version_path site.storage domain version) path) content
            now site.fs)
      else (err not_uploading, site)

-- `remove_file(marker)?` and `remove_if(domain, v == version)`.
unfoldable pub finish_upload : Site → Text → ℕ → Result (Unit {0}) × Site
unfolding marker_path remove_file nat_eq option_eq
finish_upload site domain version =
    let s = site.storage in
    elim (remove_file site.fs (marker_path s domain version)) [
      | none ↦ (err io_error, site)
      | some fs ↦ (
        ok tt,
        record {
          fs = fs;
          storage = record s {
            uploading_status =
                if Dict.lookup domain s.uploading_status == some version
                then Dict.erase domain s.uploading_status
                else s.uploading_status;
          };
        },
      )
    ]

-- `create_dir_all(path)?`, `File::create(marker)?` and the insertion.
unfoldable pub begin_upload : Site → Text → ℕ → ℕ → Result (Unit {0}) × Site
unfolding get_version_path marker_path create_dir_all create
begin_upload site domain version now =
    let s = site.storage in
    elim (create_dir_all site.fs (get_version_path s domain version)) [
      | none ↦ (err io_error, site)
      | some made ↦ elim (create made (marker_path s domain version) now) [
        | none ↦ (err io_error, record site { fs = made })
        | some fs ↦ (
          ok tt,
          record {
            fs = fs;
            storage = record s { uploading_status = Dict.insert domain version s.uploading_status };
          },
        )
      ]
    ]

abbrev pub is_finish : UploadingStatus → Bool
is_finish finish = true
is_finish uploading = false

unfoldable pub update_uploading_status :
    Site → Text → ℕ → UploadingStatus → ℕ → Result (Unit {0}) × Site
unfolding finish_upload begin_upload get_domain_serving_version nat_eq option_eq
update_uploading_status site domain version status now =
    let s = site.storage in
    elim (Dict.lookup domain s.uploading_status) [
      | some uploading_version ↦
          if not (uploading_version == version)
          then (err other_uploading, site)
          else if is_finish status
          then finish_upload site domain version
          else (ok tt, site)
      | none ↦
          if not (is_finish status)
          then if get_domain_serving_version s domain == some version
            then (err in_serving, site)
            else begin_upload site domain version now
          else finish_upload site domain version
    ]

unfoldable pub remove_path : Site → FilePath → Result Bool × Site
unfolding exists remove_dir_all
remove_path site path =
    if exists site.fs path
    then elim (remove_dir_all site.fs path) [
      | none ↦ (err io_error, site)
      | some fs ↦ (ok true, record site { fs = fs })
    ]
    else (ok false, site)

unfoldable pub remove_domain_version : Site → Text → Option ℕ → Result Bool × Site
unfolding version_path remove_path
remove_domain_version site domain (some version) =
    remove_path site (version_path site.storage.prefix domain version)
remove_domain_version site domain none = remove_path site (join site.storage.prefix domain)
