-- ===== src/Storage.antt =====
-- server/src/domain_storage.rs: the store of domains and versions over the file system. A method
-- that changes something returns the new state beside its result, also where it fails. The text of
-- an error is not kept, only which error it is.
pub mod Paths
pub mod Release
pub mod Upload
pub mod Init
pub mod Reachable
pub mod Exclusive
pub mod Served
pub mod Files
pub mod Start
pub mod Restart
pub mod Threads
pub mod Lifecycle
pub mod Position
pub mod Frames
pub mod Isolation
pub mod Markers
pub mod Digest
pub mod Stranded
use spa_server.Base.{
  ℕ, ◌+◌, ◌%◌, Bool, true, false, not, ◌&&◌, Option, none, some, List, [], ◌∷◌, ◌++◌,
}
use spa_server.Base.{
  ◌==◌, if◌then◌else◌, ltb, length, is_empty, is_some, filter, unwrap_or, map_some,
}
use spa_server.Base.{and_then, filter_map, nat_eq, list_eq, option_eq}
use spa_server.Base.Dict
use spa_server.Base.Dict.{Dict}
use spa_server.Base.Text.{Text, codes, replace}
use spa_server.Base.Text.Decimal.{u32_mod, to_string, parse_u32}
use spa_server.FilePath.{FilePath, join, file_name, parent, to_str}
use spa_server.FileSystem.{
  File, file, FileSystem, exists, is_dir, read, read_dir, create_dir_all, create, remove_file,
  remove_dir_all,
}
use spa_server.FileCache.{CacheItem, FileCache, cache_dir, update, get_item}
use spa_server.Crates.{Crates}

pub data Error : Type 0 where
  path_not_exist no_version uploading_now version_not_exist path_error no_parent : Error
  not_uploading other_uploading in_serving io_error : Error

pub data Result {ℓ} (A : Type ℓ) : Type ℓ where
  ok : A → Result A
  err : Error → Result A

abbrev pub uploading_file_name : Text
uploading_file_name = codes ".SPA-Processing"

pub record DomainStorage : Type 0 where
  -- the path and the version that each domain serves
  pub meta : Dict Text (FilePath × ℕ)
  pub prefix : FilePath
  pub cache : FileCache
  pub uploading_status : Dict Text ℕ

pub record DomainInfo : Type 0 where
  pub domain : Text
  pub current_version : Option ℕ
  pub versions : List ℕ

pub record ShortMetaData : Type 0 where
  pub path : Text
  pub md5 : Text
  pub len : ℕ

pub data UploadingStatus : Type 0 where
  uploading finish : UploadingStatus

pub data GetDomainPositionStatus : Type 0 where
  new_domain new_version in_uploading : GetDomainPositionStatus

pub record UploadDomainPosition : Type 0 where
  pub path : FilePath
  pub version : ℕ
  pub status : GetDomainPositionStatus

-- The server's storage and the disk below it.
pub record Site : Type 0 where
  pub storage : DomainStorage
  pub fs : FileSystem

-- `iter.max()`
unfoldable pub max_of : List ℕ → Option ℕ
max_of [] = none
max_of (x ∷ xs) = elim (max_of xs) [ none ↦ some x | some m ↦ some (if ltb x m then m else x) ]

-- `prefix.join(domain).join(version.to_string())`
unfoldable pub version_path : FilePath → Text → ℕ → FilePath
version_path prefix domain version = join (join prefix domain) (to_string version)

unfoldable pub get_version_path : DomainStorage → Text → ℕ → FilePath
unfolding version_path
get_version_path s host version = version_path s.prefix host version

-- The marker file of an upload.
unfoldable pub marker_path : DomainStorage → Text → ℕ → FilePath
unfolding get_version_path
marker_path s domain version = join (get_version_path s domain version) uploading_file_name

unfoldable pub get_file : DomainStorage → Text → Text → Option CacheItem
unfolding get_item
get_file s host key = get_item s.cache host key

unfoldable pub get_domain_serving_version : DomainStorage → Text → Option ℕ
get_domain_serving_version s domain = map_some (λ x. x.1) (Dict.lookup domain s.meta)

unfoldable pub check_is_in_upload_process : DomainStorage → Text → ℕ → Bool
unfolding nat_eq option_eq
check_is_in_upload_process s domain version = Dict.lookup domain s.uploading_status == some version

-- `version_entity.file_name().to_str()?.parse::<u32>().ok()?`
abbrev pub version_of : FilePath → Option ℕ
version_of p = parse_u32 (file_name p)

module _ (crates : Crates) where
  open crates use {walk, is_uri, md5, sanitize_path}

  unfoldable pub domain_versions : FileSystem → FilePath → List ℕ
  domain_versions fs path = filter_map version_of (walk fs path (some 1))

  unfoldable pub get_domain_info_by_domain : DomainStorage → FileSystem → Text → Option DomainInfo
  unfolding domain_versions get_domain_serving_version
  get_domain_info_by_domain s fs domain =
      let versions = domain_versions fs (join s.prefix domain) in
      if is_empty versions
      then none
      else some (record {
        domain = domain;
        current_version = get_domain_serving_version s domain;
        versions = versions;
      })

  unfoldable pub domain_info_of : DomainStorage → FileSystem → FilePath → Option DomainInfo
  unfolding domain_versions get_domain_serving_version
  domain_info_of s fs path =
      if is_dir fs path && is_uri (file_name path)
      then some (record {
        domain = file_name path;
        current_version = get_domain_serving_version s (file_name path);
        versions = domain_versions fs path;
      })
      else none

  unfoldable pub get_domain_info : DomainStorage → FileSystem → List DomainInfo
  unfolding domain_info_of
  get_domain_info s fs = filter_map (domain_info_of s fs) (walk fs s.prefix (some 1))

  unfoldable pub get_upload_position : DomainStorage → FileSystem → Text → UploadDomainPosition
  unfolding get_version_path get_domain_info_by_domain max_of
  get_upload_position s fs domain = elim (Dict.lookup domain s.uploading_status) [
    | some version ↦ record {
      path = get_version_path s domain version;
      version = version;
      status = in_uploading;
    }
    | none ↦ elim (get_domain_info_by_domain s fs domain) [
      | some info ↦
          let version = (unwrap_or (max_of info.versions) 0 + 1) % u32_mod in
          record {
            path = version_path s.prefix domain version;
            version = version;
            status = new_version;
          }
      | none ↦ record { path = version_path s.prefix domain 1; version = 1; status = new_domain }
    ]
  ]

  unfoldable pub short_metadata : FileSystem → Text → FilePath → Option ShortMetaData
  unfolding replace nat_eq list_eq
  short_metadata fs prefix path =
      if file_name path == uploading_file_name
      then none
      else map_some
          (λ f. record {
            path = replace (to_str path) prefix [];
            md5 = md5 f.content;
            len = length f.content;
          })
          (read fs path)

  unfoldable pub get_files_metadata : DomainStorage → FileSystem → Text → ℕ → List ShortMetaData
  unfolding get_version_path short_metadata exists
  get_files_metadata s fs domain version =
      let path = get_version_path s domain version in
      if exists fs path
      then filter_map (short_metadata fs (to_str path ++ b'/' ∷ [])) (walk fs path none)
      else []
