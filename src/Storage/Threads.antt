-- ===== src/Storage/Threads.antt =====
-- server/src/domain_storage.rs: the methods as the threads of the server run them. A step is one
-- access to a shared map or one call that reads or changes the disk, `cache_dir` included, since no
-- lock is held from one to the next.
pub mod Alone
pub mod Race
use spa_server.Base.{ℕ, zero, suc, Bool, true, false, not, Option, none, some, List, [], ◌∷◌}
use spa_server.Base.{◌==◌, if◌then◌else◌, nat_eq, list_eq, option_eq}
use spa_server.Base.Dict
use spa_server.Base.Dict.{Dict}
use spa_server.Base.Text.{Text}
use spa_server.FileSystem.{FileSystem, is_dir, create, create_dir_all, remove_file}
use spa_server.FileCache.{CacheItem, cache_dir, update}
use spa_server.Crates.{Crates}
use spa_server.Storage.{
  uploading_now, version_not_exist, other_uploading, in_serving, io_error, Result, ok, err, Site,
  UploadingStatus, uploading, finish, version_path, get_version_path, marker_path,
  get_domain_serving_version,
}
use spa_server.Storage.Upload.{is_finish}

-- Where a thread stands in `upload_domain_with_version`, once the version is chosen.
pub data Releasing : Type 0 where
  release_check release_look release_meta release_read : Text → ℕ → Releasing
  release_update : Text → ℕ → Dict Text CacheItem → Releasing
  released : Result ℕ → Releasing

-- Where it stands in `update_uploading_status`.
pub data Changing : Type 0 where
  status_read : Text → ℕ → UploadingStatus → Changing
  begin_serving begin_dir begin_marker begin_insert : Text → ℕ → Changing
  finish_remove finish_forget : Text → ℕ → Changing
  status_set : Result (Unit {0}) → Changing

pub data Task : Type 0 where
  releasing : Releasing → Task
  changing : Changing → Task

abbrev with_fs : Site → FileSystem → Site
with_fs site fs = record site { fs = fs }

abbrev with_status : Site → Dict Text ℕ → Site
with_status site status = record site {
  storage = record site.storage { uploading_status = status };
}

-- The first branches of `update_uploading_status`.
unfoldable pub status_branch : Option ℕ → Text → ℕ → UploadingStatus → Changing
unfolding nat_eq
status_branch (some uploading_version) domain version status =
    if not (uploading_version == version)
    then status_set (err other_uploading)
    else if is_finish status
    then finish_remove domain version
    else status_set (ok tt)
status_branch none domain version status =
    if not (is_finish status) then begin_serving domain version else finish_remove domain version

unfoldable pub release_step : Crates → Releasing → Site → Releasing × Site
unfolding nat_eq option_eq version_path is_dir cache_dir update
release_step crates (release_check domain version) site =
    if Dict.lookup domain site.storage.uploading_status == some version
    then (released (err uploading_now), site)
    else (release_look domain version, site)
release_step crates (release_look domain version) site =
    if is_dir site.fs (version_path site.storage.prefix domain version)
    then (release_meta domain version, site)
    else (released (err version_not_exist), site)
release_step crates (release_meta domain version) site =
    let s = site.storage in
    (
      release_read domain version,
      record site {
        storage = record s {
          meta = Dict.insert domain (version_path s.prefix domain version, version) s.meta;
        };
      },
    )
release_step crates (release_read domain version) site =
    let s = site.storage in
    (
      release_update domain version
          (cache_dir crates s.cache site.fs domain (version_path s.prefix domain version)),
      site,
    )
release_step crates (release_update domain version items) site =
    let s = site.storage in
    (
      released (ok version),
      record site { storage = record s { cache = update s.cache domain items } },
    )
release_step crates (released result) site = (released result, site)

unfoldable pub status_step : ℕ → Changing → Site → Changing × Site
unfolding status_branch nat_eq option_eq get_version_path marker_path create create_dir_all
    remove_file get_domain_serving_version
status_step now (status_read domain version status) site =
    (status_branch (Dict.lookup domain site.storage.uploading_status) domain version status, site)
status_step now (begin_serving domain version) site =
    if get_domain_serving_version site.storage domain == some version
    then (status_set (err in_serving), site)
    else (begin_dir domain version, site)
status_step now (begin_dir domain version) site =
    elim (create_dir_all site.fs (get_version_path site.storage domain version)) [
      | none ↦ (status_set (err io_error), site)
      | some fs ↦ (begin_marker domain version, with_fs site fs)
    ]
status_step now (begin_marker domain version) site =
    elim (create site.fs (marker_path site.storage domain version) now) [
      | none ↦ (status_set (err io_error), site)
      | some fs ↦ (begin_insert domain version, with_fs site fs)
    ]
status_step now (begin_insert domain version) site = (
  status_set (ok tt),
  with_status site (Dict.insert domain version site.storage.uploading_status),
)
status_step now (finish_remove domain version) site =
    elim (remove_file site.fs (marker_path site.storage domain version)) [
      | none ↦ (status_set (err io_error), site)
      | some fs ↦ (finish_forget domain version, with_fs site fs)
    ]
status_step now (finish_forget domain version) site =
    let status = site.storage.uploading_status in
    (
      status_set (ok tt),
      with_status site
          (if Dict.lookup domain status == some version then Dict.erase domain status else status),
    )
status_step now (status_set result) site = (status_set result, site)

module _ (crates : Crates) (now : ℕ) where
  unfoldable pub micro_step : Task → Site → Task × Site
  unfolding release_step status_step
  micro_step (releasing t) site =
      let (t', site') = release_step crates t site in (releasing t', site')
  micro_step (changing t) site = let (t', site') = status_step now t site in (changing t', site')

  -- So many steps of one thread, and of two threads by a schedule: `true` is a step of the first.
  unfoldable pub run_alone : ℕ → Task → Site → Task × Site
  unfolding micro_step
  run_alone zero task site = (task, site)
  run_alone (suc n) task site = let (task', site') = micro_step task site in run_alone n task' site'

  unfoldable pub run_threads : List Bool → Task → Task → Site → Task × Task × Site
  unfolding micro_step
  run_threads [] first second site = (first, second, site)
  run_threads (true ∷ schedule) first second site =
      let (first', site') = micro_step first site in run_threads schedule first' second site'
  run_threads (false ∷ schedule) first second site =
      let (second', site') = micro_step second site in run_threads schedule first second' site'
