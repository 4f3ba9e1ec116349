-- ===== src/Storage/Threads/Race.antt =====
-- server/src/domain_storage.rs: a release and the beginning of an upload at the same time.
use spa_server.Base.{
  ℕ, ◌≡◌, inl, inr, Bool, true, false, none, some, List, [], ◌∷◌, arith, nat_eq, list_eq, option_eq,
}
use spa_server.Base.{Option-cases}
use spa_server.Base.Dict
use spa_server.Base.Text.{Text}
use spa_server.FileSystem.{create, create_dir_all}
use spa_server.Crates.{Crates}
use spa_server.Storage.{
  ok, Site, uploading, version_path, get_version_path, marker_path, get_domain_serving_version,
}
use spa_server.Storage.Release.{release}
use spa_server.Storage.Upload.{update_uploading_status, begin_upload}
use spa_server.Storage.Threads.{
  releasing, changing, released, status_set, release_check, status_read, run_threads,
}

-- The release has looked at the uploads and at the directory when the upload begins and ends to
-- begin; then the release goes on.
abbrev pub between : List Bool
between = true ∷ true ∷ false ∷ false ∷ false ∷ false ∷ false ∷ true ∷ true ∷ true ∷ []

module _ (crates : Crates) (now : ℕ) where
  -- Whenever a release of a version and the beginning of an upload of it would each succeed, and no
  -- upload of the domain is on: there is an order of their steps in which both succeed, and after
  -- which the domain serves the version that is being uploaded.
  pub run_threads-serves_uploading :
      (site : Site) (d : Text) (v : ℕ)
      → Dict.lookup d site.storage.uploading_status ≡ none
      → (release crates site d v).0 ≡ ok v
      → (update_uploading_status site d v uploading now).0 ≡ ok tt
      → let ended =
          run_threads crates now between
            (releasing (release_check d v))
            (changing (status_read d v uploading))
            site in
        (ended.0 ≡ releasing (released (ok v)))
        × (ended.1 ≡ changing (status_set (ok tt)))
        × (get_domain_serving_version ended.2.storage d ≡ some v)
        × (Dict.lookup d ended.2.storage.uploading_status ≡ some v)
  unfolding run_threads release update_uploading_status begin_upload get_domain_serving_version
  run_threads-serves_uploading site d v idle releases begins =
      elim (Option-cases (create_dir_all site.fs (get_version_path site.storage d v))) [
        | inl failed ↦ ground (arith, failed)
        | inr (made, dirs) ↦ elim (Option-cases (create made (marker_path site.storage d v) now)) [
          | inl failed ↦ ground (arith, dirs, failed)
          | inr (fs, marker) ↦ ground (
            arith,
            dirs,
            marker,
            Dict.lookup-insert d d (version_path site.storage.prefix d v, v) site.storage.meta,
            Dict.lookup-insert d d v site.storage.uploading_status,
          )
        ]
      ]
