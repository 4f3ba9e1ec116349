-- ===== src/Client/Wire/Agrees.antt =====
-- client/src/api.rs and server/src/admin_server.rs: the client's calls do on the server what they are
-- for.
use spa_server.Base.{ℕ, ◌*◌, ◌≤◌, ◌<◌, ◌≡◌, some, arith, length, nat_eq, list_eq, option_eq}
use spa_server.Base.{Bool-cases, inl, inr}
use spa_server.Base.Text.{Text}
use spa_server.Base.Text.Decimal.{u32_mod, to_string, parse_u32-to_string}
use spa_server.Config.{AdminConfig}
use spa_server.Crates.{Crates}
use spa_server.Storage.{get_upload_position, get_files_metadata, Site}
use spa_server.Admin.{
  get_upload_position_handler, get_files_metadata_handler, UpdateUploadingStatusOption,
  change_upload_status, update_file, save_fields,
}
use spa_server.Admin.Routes.{AdminCrates}
use spa_server.Client.{ClientCrates}
use spa_server.Client.Requests.{
  get_upload_position-reaches, get_file_metadata-reaches, upload_file-reaches,
  change_uploading_status-reaches,
}
use spa_server.Client.Calls.{AnswerCrates, handle, json_resp, api}
use spa_server.Client.Upload.{Api}
use spa_server.Client.Direct.{server_api}
use spa_server.Client.Wire.{ReplyCrates, direct, Decodes}

-- The client's API over the connection to the routes.
unfoldable pub wire :
    Crates → AdminCrates → ReplyCrates → ClientCrates → AnswerCrates → AdminConfig → ℕ → Api Site
unfolding api direct
wire crates admin replies client reads conf now =
    api client reads conf.token (direct crates admin replies conf now)

module _ (crates : Crates) (admin : AdminCrates) (replies : ReplyCrates) (client : ClientCrates)
    (reads : AnswerCrates) (conf : AdminConfig) (now : ℕ)
    (decodes : Decodes admin replies client reads) where
  pub status-agrees :
      (param : UpdateUploadingStatusOption) (site : Site)
      → length (client.status_json param) ≤ 1024 * 16
      → (wire crates admin replies client reads conf now).change_uploading_status param site
        ≡ (server_api crates now).change_uploading_status param site
  unfolding wire server_api direct api handle change_upload_status
  status-agrees param site short =
      rw
        (change_uploading_status-reaches crates admin client conf param now site
          (decodes.status_decodes param) short)
        (ground arith)

  position-agrees :
      (d : Text) (site : Site)
      → (wire crates admin replies client reads conf now).get_upload_position d site
        ≡ (server_api crates now).get_upload_position d site
  unfolding wire server_api direct api json_resp get_upload_position_handler
  position-agrees d site = elim (Bool-cases (crates.is_uri d)) [
    | inl uri ↦
        rw
          (get_upload_position-reaches crates admin client conf d _ now site
            (decodes.position_decodes d))
          (ground (
            arith,
            uri,
            decodes.position_reads (get_upload_position crates site.storage site.fs d),
          ))
    | inr other ↦
        rw
          (get_upload_position-reaches crates admin client conf d _ now site
            (decodes.position_decodes d))
          (ground (arith, other))
  ]

  pub metadata-agrees :
      (d : Text) (v : ℕ) (site : Site)
      → v < u32_mod
      → (wire crates admin replies client reads conf now).get_file_metadata d v site
        ≡ (server_api crates now).get_file_metadata d v site
  unfolding wire server_api direct api json_resp get_files_metadata_handler
  metadata-agrees d v site small =
      rw
        (get_file_metadata-reaches crates admin client conf d v _ now site
          (decodes.version_decodes d v small))
        (ground
          (arith, decodes.metadata_reads (get_files_metadata crates site.storage site.fs d v)))

  pub upload-agrees :
      (d k c : Text) (v : ℕ) (site : Site)
      → v < u32_mod
      → admin.from_utf8 d ≡ some d
      → admin.from_utf8 k ≡ some k
      → length (client.form d (to_string v) k c) ≤ conf.max_upload_size
      → (wire crates admin replies client reads conf now).upload_file d v k c site
        ≡ (server_api crates now).upload_file d v k c site
  unfolding wire server_api direct api handle update_file save_fields nat_eq list_eq
  upload-agrees d k c v site small plain_d plain_k short =
      rw
        (
          upload_file-reaches crates admin client conf d (to_string v) k c _ now site
              (decodes.form_decodes d (to_string v) k c) short,
          plain_d,
          plain_k,
          decodes.digits_utf8 v,
          parse_u32-to_string v small,
        )
        (ground arith)

  -- Over a connection that brings every request to the routes of the server, with crates that read
  -- what the others write, each call of the client that an upload makes answers and does what the
  -- server's method does for the call's own arguments: the position that is offered, for any domain;
  -- the files of a version and the transfer of a file, for a version that is a `u32`, texts that are
  -- UTF-8, and a form that is not too long; and the change of a status, if its JSON is not too long.
  pub api-agrees :
      (param : UpdateUploadingStatusOption) (d k c : Text) (v : ℕ) (site : Site)
      → v < u32_mod
      → admin.from_utf8 d ≡ some d
      → admin.from_utf8 k ≡ some k
      → length (client.form d (to_string v) k c) ≤ conf.max_upload_size
      → length (client.status_json param) ≤ 1024 * 16
      → let server = server_api crates now in
        let client_api = wire crates admin replies client reads conf now in
        (client_api.get_upload_position d site ≡ server.get_upload_position d site)
        × (client_api.get_file_metadata d v site ≡ server.get_file_metadata d v site)
        × (client_api.change_uploading_status param site
            ≡ server.change_uploading_status param site)
        × (client_api.upload_file d v k c site ≡ server.upload_file d v k c site)
  api-agrees param d k c v site small plain_d plain_k short short_status = (
    position-agrees d site,
    metadata-agrees d v site small,
    status-agrees param site short_status,
    upload-agrees d k c v site small plain_d plain_k short,
  )
