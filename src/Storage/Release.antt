-- ===== src/Storage/Release.antt =====
-- server/src/domain_storage.rs: `upload_domain_with_version`, which makes a version the one served.
use spa_server.Base.{ℕ, Option, none, some, []}
use spa_server.Base.{◌==◌, if◌then◌else◌, unwrap_or, map_some, nat_eq, list_eq, option_eq}
use spa_server.Base.Dict
use spa_server.Base.Dict.{Dict}
use spa_server.Base.Text.{Text}
use spa_server.FileSystem.{FileSystem, is_dir}
use spa_server.FileCache.{cache_dir, update}
use spa_server.Crates.{Crates}
use spa_server.Storage.{
  no_version, uploading_now, version_not_exist, Result, ok, err, DomainStorage, Site, max_of,
  version_path, get_domain_info_by_domain,
}

module _ (crates : Crates) where
  -- The first half of `upload_domain_with_version`: the version asked for, or the largest there is.
  unfoldable pub chosen_version : DomainStorage → FileSystem → Text → Option ℕ → Option ℕ
  unfolding max_of get_domain_info_by_domain
  chosen_version s fs domain (some version) = some version
  chosen_version s fs domain none = max_of (
      unwrap_or (map_some (λ info. info.versions) (get_domain_info_by_domain crates s fs domain))
        [])

  unfoldable pub release : Site → Text → ℕ → Result ℕ × Site
  unfolding nat_eq option_eq version_path cache_dir update is_dir
  release site domain version =
      let s = site.storage in
      let new_path = version_path s.prefix domain version in
      if Dict.lookup domain s.uploading_status == some version
      then (err uploading_now, site)
      else if is_dir site.fs new_path
      then (
        ok version,
        record site {
          storage = record s {
            meta = Dict.insert domain (new_path, version) s.meta;
            cache = update s.cache domain (cache_dir crates s.cache site.fs domain new_path);
          };
        },
      )
      else (err version_not_exist, site)

  unfoldable pub upload_domain_with_version : Site → Text → Option ℕ → Result ℕ × Site
  unfolding chosen_version release
  upload_domain_with_version site domain version =
      elim (chosen_version site.storage site.fs domain version) [
        | none ↦ (err no_version, site)
        | some v ↦ release site domain v
      ]
