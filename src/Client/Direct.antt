-- ===== src/Client/Direct.antt =====
-- The server of server/src/domain_storage.rs and server/src/admin_server.rs as the one that
-- client/src/upload_files.rs talks to, over a connection that loses nothing.
use spa_server.Base.{
  ℕ, ◌≡◌, ◌≢◌, refl, sym, ap, ◌∙◌, Bool, true, false, inl, inr, Option, none, some, [], arith,
  nat_eq, list_eq, option_eq,
}
use spa_server.Base.{if◌then◌else◌, map_some, and_then, Option-cases}
use spa_server.Base.Dict
use spa_server.Base.Text.{Text}
use spa_server.FilePath.{FilePath, file_name}
use spa_server.FileSystem.{Node, file, read}
use spa_server.Crates.{Crates}
use spa_server.Storage.{
  Result, ok, err, Site, DomainStorage, uploading_file_name, get_version_path, version_path,
  get_upload_position, get_files_metadata,
}
use spa_server.Storage.Paths.{file_name-marker_path}
use spa_server.Storage.Upload.{save_file, update_uploading_status}
use spa_server.Storage.Files.{
  lookup-of_read, read-of_lookup, save_file-keeps, save_file-stores, save_file-path,
  save_file-storage, update_uploading_status-keeps, update_uploading_status-prefix,
}
use spa_server.Client.Upload.{Api}
use spa_server.Client.Upload.Stores.{IsStore}

abbrev is_ok {ℓ} : {A : Type ℓ} → Result A → Bool
is_ok (ok _) = true
is_ok (err _) = false

is_ok-ok : (r : Result (Unit {0})) → is_ok r ≡ true → r ≡ ok tt
is_ok-ok (ok tt) h = refl
is_ok-ok (err e) h = absurd (cc)

module _ (crates : Crates) (now : ℕ) where
  unfoldable pub server_api : Api Site
  unfolding get_upload_position get_files_metadata update_uploading_status save_file
  server_api = record {
    get_upload_position = λ domain site. (
      if crates.is_uri domain
          then some (get_upload_position crates site.storage site.fs domain)
          else none,
      site,
    );
    get_file_metadata = λ domain version site.
        (some (get_files_metadata crates site.storage site.fs domain version), site);
    change_uploading_status = λ param site.
        let (result, site') =
          update_uploading_status site param.domain param.version param.status now in
        (is_ok result, site');
    upload_file = λ domain version key content site.
        let (result, site') = save_file crates site domain version key content now in
        (is_ok result, site');
  }

  -- The bytes that the server has for a key of a version.
  unfoldable pub server_stored : Site → Text → ℕ → Text → Option Text
  unfolding get_version_path read
  server_stored site domain version key =
      map_some (λ f. f.content)
        (and_then (crates.sanitize_path (get_version_path site.storage domain version) key)
          (read site.fs))

  -- A key that names no marker of an upload.
  abbrev pub IsOrdinary : Text → Type 0
  IsOrdinary key =
      (base path : FilePath)
      → crates.sanitize_path base key ≡ some path
      → file_name path ≢ uploading_file_name

  server_stored-keeps :
      (site site' : Site) (e : Text) (w : ℕ) (k c : Text)
      → site'.storage.prefix ≡ site.storage.prefix
      → ((p : FilePath) (n : Node)
          → crates.sanitize_path (get_version_path site.storage e w) k ≡ some p
          → Dict.lookup p site.fs ≡ some n
          → Dict.lookup p site'.fs ≡ some n)
      → server_stored site e w k ≡ some c
      → server_stored site' e w k ≡ some c
  unfolding server_stored get_version_path
  server_stored-keeps site site' e w k c same kept h =
      elim (Option-cases (crates.sanitize_path (version_path site.storage.prefix e w) k)) [
        | inl nowhere ↦ ground (arith, nowhere)
        | inr (p, names) ↦ elim (Option-cases (read site.fs p)) [
          | inl missing ↦ ground (arith, names, missing)
          | inr (f, found) ↦
              let still =
                read-of_lookup site'.fs p f
                  (kept p (file f) names (lookup-of_read site.fs p f found)) in
              ground (arith, names, found, still)
        ]
      ]

  server_stored-upload :
      (site : Site) (d : Text) (v : ℕ) (key content : Text)
      → content ≢ []
      → (save_file crates site d v key content now).0 ≡ ok tt
      → server_stored (save_file crates site d v key content now).1 d v key ≡ some content
  unfolding server_stored
  server_stored-upload site d v key content full done =
      elim (Option-cases (crates.sanitize_path (get_version_path site.storage d v) key)) [
        | inl nowhere ↦
            ground (arith, nowhere, save_file-path crates site d v key content now full done)
        | inr (path, names) ↦ ground (
          arith,
          names,
          save_file-storage crates site d v key content now,
          save_file-stores crates site d v key content now path names full done,
        )
      ]

  -- The server keeps the promises of `IsStore`, where the keys name no marker.
  pub server_api-IsStore : IsStore server_api server_stored IsOrdinary
  unfolding server_api server_stored
  server_api-IsStore = record {
    upload_stores = λ d v key content site full done.
        server_stored-upload site d v key content full
          (is_ok-ok (save_file crates site d v key content now).0 done);
    upload_keeps = λ d v key content site e w k c h.
        server_stored-keeps site (save_file crates site d v key content now).1 e w k c
          (ap (λ (s : DomainStorage). s.prefix) (save_file-storage crates site d v key content now))
          (λ p n names. save_file-keeps crates site d v key content now p n) h;
    status_keeps = λ param site e w k c plain h.
        server_stored-keeps site
          (update_uploading_status site param.domain param.version param.status now).1 e w k c
          (update_uploading_status-prefix site param.domain param.version param.status now)
          (λ p n names.
            update_uploading_status-keeps site param.domain param.version param.status now p n
              (λ same. plain _ p names (
                ap file_name (sym same)
                ∙ file_name-marker_path site.storage param.domain param.version)))
          h;
  }
