-- ===== src/Client/Requests.antt =====
-- client/src/api.rs against server/src/admin_server.rs: what the server does for the client's requests.
use spa_server.Base.{
  ◌∷◌, ℕ, ◌*◌, ◌≤◌, ◌≡◌, true, Option, none, some, List, ==-refl, le→leb, [], ◌++◌, length, nat_eq,
  list_eq, option_eq,
}
use spa_server.Base.Text.{Text, codes}
use spa_server.Config.{AdminConfig}
use spa_server.Crates.{Crates}
use spa_server.Storage.{Site}
use spa_server.Client.{get_request, get_upload_position, get_file_metadata, upload_file}
use spa_server.Base.Text.Decimal.{to_string}
use spa_server.Admin.{
  GetDomainPositionOption, DomainWithVersionOption, Part, get_upload_position_handler,
  get_files_metadata_handler, update_file,
}
use spa_server.Admin.{
  UpdateUploadingStatusOption, DomainWithOptVersionOption, change_upload_status,
  update_domain_version, remove_domain_version,
}
use spa_server.Admin.Routes.{AdminCrates, answered, routes, auth}
use spa_server.Client.{
  ClientCrates, remove_files, post_json, change_uploading_status, release_domain_version,
}

pub auth-post_json :
    (conf : AdminConfig) (path : List Text) (body : Text)
    → auth conf (post_json conf.token path body) ≡ true
unfolding auth post_json
auth-post_json conf path body = ==-refl (some (codes "Bearer " ++ conf.token))

module _ (crates : Crates) (admin : AdminCrates) (client : ClientCrates) where
  -- The request to delete carries its arguments in its body, and the server reads them from the
  -- query. So whatever domain and reserve the client is asked for, the server does what it does for a
  -- request that names neither, provided that an empty query is read as one that names neither.
  pub remove_files-ignored :
      (conf : AdminConfig) (domain : Option Text) (max_reserve : Option ℕ) (now : ℕ) (site : Site)
      → admin.query_delete [] ≡ some (record { domain = none; max_reserve = none })
      → routes crates admin conf (remove_files client conf.token domain max_reserve) now site
        ≡ answered
            (remove_domain_version crates (record { domain = none; max_reserve = none }) site).0
            (remove_domain_version crates (record { domain = none; max_reserve = none }) site).1
  unfolding routes remove_files
  remove_files-ignored conf domain max_reserve now site empty = rw (auth-post_json conf _ _, empty)

  -- The request to change the status of an upload reaches the handler with the client's own
  -- arguments, provided that the server reads what the client writes and that this is not too long.
  pub change_uploading_status-reaches :
      (conf : AdminConfig) (param : UpdateUploadingStatusOption) (now : ℕ) (site : Site)
      → admin.json_status (client.status_json param) ≡ some param
      → length (client.status_json param) ≤ 1024 * 16
      → routes crates admin conf (change_uploading_status client conf.token param) now site
        ≡ answered (change_upload_status param now site).0 (change_upload_status param now site).1
  unfolding routes change_uploading_status
  change_uploading_status-reaches conf param now site reads short =
      rw (auth-post_json conf _ _, reads, le→leb _ _ short)

  -- The request to release a version reaches the handler with the client's own arguments, provided
  -- that the server reads what the client writes and that this is not too long.
  pub release_domain_version-reaches :
      (conf : AdminConfig) (domain : Text) (version : Option ℕ) (now : ℕ) (site : Site)
      → let param : DomainWithOptVersionOption = record { domain = domain; version = version } in
        admin.json_release (client.release_json param) ≡ some param
        → length (client.release_json param) ≤ 1024 * 16
        → routes crates admin conf
            (release_domain_version client conf.token domain version)
            now
            site
          ≡ answered
              (update_domain_version crates param site).0
              (update_domain_version crates param site).1
  unfolding routes release_domain_version
  release_domain_version-reaches conf domain version now site reads short =
      rw (auth-post_json conf _ _, reads, le→leb _ _ short)

  auth-get_request :
      (conf : AdminConfig) (path : List Text) (query : Text)
      → auth conf (get_request conf.token path query) ≡ true
  unfolding auth get_request
  auth-get_request conf path query = ==-refl (some (codes "Bearer " ++ conf.token))

  -- The other requests of an upload, for what the server reads of them.
  pub get_upload_position-reaches :
      (conf : AdminConfig) (d : Text) (option : GetDomainPositionOption) (now : ℕ) (site : Site)
      → admin.query_position
          (client.query ((codes "domain", d) ∷ (codes "format", codes "Json") ∷ []))
        ≡ some option
      → routes crates admin conf (get_upload_position client conf.token d) now site
        ≡ answered (get_upload_position_handler crates option site) site
  unfolding routes get_upload_position
  get_upload_position-reaches conf d option now site reads = rw (auth-get_request conf _ _, reads)

  pub get_file_metadata-reaches :
      (conf : AdminConfig) (d : Text) (v : ℕ) (option : DomainWithVersionOption) (now : ℕ)
      (site : Site)
      → admin.query_version
          (client.query ((codes "domain", d) ∷ (codes "version", to_string v) ∷ []))
        ≡ some option
      → routes crates admin conf (get_file_metadata client conf.token d v) now site
        ≡ answered (get_files_metadata_handler crates option site) site
  unfolding routes get_file_metadata
  get_file_metadata-reaches conf d v option now site reads = rw (auth-get_request conf _ _, reads)

  pub upload_file-reaches :
      (conf : AdminConfig) (d v k c : Text) (parts : List Part) (now : ℕ) (site : Site)
      → admin.form (client.form d v k c) ≡ some (some parts)
      → length (client.form d v k c) ≤ conf.max_upload_size
      → routes crates admin conf (upload_file client conf.token d v k c) now site
        ≡ answered
            (update_file crates admin.from_utf8 parts now site).0
            (update_file crates admin.from_utf8 parts now site).1
  unfolding routes upload_file
  upload_file-reaches conf d v k c parts now site reads short =
      rw (auth-post_json conf _ _, reads, le→leb _ _ short)
