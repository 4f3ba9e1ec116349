-- ===== src/Storage/Init.antt =====
-- server/src/domain_storage.rs: `DomainStorage::init`, which reads the disk.
use spa_server.Base.{ℕ, ◌&&◌, Option, none, some, List, [], ◌∷◌}
use spa_server.Base.{if◌then◌else◌, ltb, nat_eq, list_eq, option_eq}
use spa_server.Base.Dict
use spa_server.Base.Dict.{Dict}
use spa_server.Base.Text.{Text}
use spa_server.FilePath.{FilePath, join, file_name}
use spa_server.FileSystem.{FileSystem, exists, is_dir, read_dir}
use spa_server.FileCache.{FileCache, cache_dir, update}
use spa_server.Crates.{Crates}
use spa_server.Storage.{
  path_not_exist, io_error, Result, ok, err, uploading_file_name, DomainStorage, version_path,
  version_of,
}

-- One entry of a domain's directory: the upload that it marks, or a candidate for the version to serve.
unfoldable pub scan_version : FileSystem → Text → Dict Text ℕ × ℕ → FilePath → Dict Text ℕ × ℕ
unfolding exists
scan_version fs domain (status, max_version) path = elim (version_of path) [
  | none ↦ (status, max_version)
  | some version ↦
      if exists fs (join path uploading_file_name)
      then (Dict.insert domain version status, max_version)
      else (status, if ltb max_version version then version else max_version)
]

unfoldable pub scan_versions : FileSystem → Text → Dict Text ℕ × ℕ → List FilePath → Dict Text ℕ × ℕ
unfolding scan_version
scan_versions fs domain found [] = found
scan_versions fs domain found (path ∷ paths) =
    scan_versions fs domain (scan_version fs domain found path) paths

module _ (crates : Crates) where
  -- The version found is served, if there is one.
  unfoldable pub serve_version : FileSystem → DomainStorage → Text → ℕ → DomainStorage
  unfolding version_path cache_dir update
  serve_version fs s domain max_version =
      let path = version_path s.prefix domain max_version in
      if ltb 0 max_version
      then record s {
        meta = Dict.insert domain (path, max_version) s.meta;
        cache = update s.cache domain (cache_dir crates s.cache fs domain path);
      }
      else s

  unfoldable pub load_domain : FileSystem → DomainStorage → FilePath → Option DomainStorage
  unfolding is_dir read_dir file_name scan_versions serve_version
  load_domain fs s path =
      let domain = file_name path in
      if is_dir fs path && crates.is_uri domain
      then elim (read_dir fs path) [
        | none ↦ none
        | some paths ↦
            let found = scan_versions fs domain (s.uploading_status, 0) paths in
            some (serve_version fs (record s { uploading_status = found.0 }) domain found.1)
      ]
      else some s

  unfoldable pub load_domains : FileSystem → DomainStorage → List FilePath → Option DomainStorage
  unfolding load_domain
  load_domains fs s [] = some s
  load_domains fs s (path ∷ paths) = elim (load_domain fs s path) [
    | none ↦ none
    | some s' ↦ load_domains fs s' paths
  ]

  abbrev loaded : Option DomainStorage → Result DomainStorage
  loaded none = err io_error
  loaded (some s) = ok s

  abbrev pub fresh : FilePath → FileCache → DomainStorage
  fresh prefix cache = record { meta = []; prefix = prefix; cache = cache; uploading_status = [] }

  unfoldable pub init : FilePath → FileCache → FileSystem → Result DomainStorage
  unfolding exists read_dir load_domains
  init prefix cache fs =
      if exists fs prefix
      then elim (read_dir fs prefix) [
        | none ↦ err io_error
        | some paths ↦ loaded (load_domains fs (fresh prefix cache) paths)
      ]
      else err path_not_exist
