-- ===== src/Client.antt =====
-- client/src/api.rs: the requests that the client sends to the administration's server. What the
-- client's crates make of a value is a parameter.
pub mod Requests
pub mod Upload
pub mod Direct
pub mod Calls
pub mod Wire
pub mod Config
pub mod Commands
use spa_server.Base.{ℕ, Option, none, some, List, [], ◌∷◌, ◌++◌}
use spa_server.Base.{length}
use spa_server.Base.Text.{Text, codes}
use spa_server.Base.Text.Decimal.{to_string}
use spa_server.Admin.{
  DeleteDomainVersionOption, DomainWithOptVersionOption, UpdateUploadingStatusOption,
}
use spa_server.Admin.Routes.{AdminRequest}

pub record ClientCrates : Type 0 where
  -- `.json(&param)`
  pub delete_json : DeleteDomainVersionOption → Text
  pub release_json : DomainWithOptVersionOption → Text
  pub status_json : UpdateUploadingStatusOption → Text
  -- `.query(&[(name, value), …])`
  pub query : List (Text × Text) → Text
  -- the body of a form with three texts and a file
  pub form : Text → Text → Text → Text → Text

-- The fields of `API` that a request takes: the token.
abbrev with_token : Text → Text → List Text → Text → Option ℕ → Text → AdminRequest
with_token token method path query content_length body = record {
  method = method;
  path = path;
  query = query;
  headers = (codes "authorization", codes "Bearer " ++ token) ∷ [];
  content_length = content_length;
  body = body;
}

unfoldable pub get_request : Text → List Text → Text → AdminRequest
get_request token path query = with_token token (codes "GET") path query none []

-- `post(url).json(&param)`, with no query
unfoldable pub post_json : Text → List Text → Text → AdminRequest
post_json token path body = with_token token (codes "POST") path [] (some (length body)) body

module _ (client : ClientCrates) (token : Text) where
  unfoldable pub change_uploading_status : UpdateUploadingStatusOption → AdminRequest
  unfolding post_json
  change_uploading_status param =
      post_json token (codes "files" ∷ codes "upload_status" ∷ []) (client.status_json param)

  unfoldable pub release_domain_version : Text → Option ℕ → AdminRequest
  unfolding post_json
  release_domain_version domain version =
      post_json token (codes "update_version" ∷ [])
        (client.release_json (record { domain = domain; version = version }))

  unfoldable pub reload_sap_server : AdminRequest
  unfolding post_json
  reload_sap_server = with_token token (codes "POST") (codes "reload" ∷ []) [] (some 0) []

  unfoldable pub remove_files : Option Text → Option ℕ → AdminRequest
  unfolding post_json
  remove_files domain max_reserve =
      post_json token (codes "files" ∷ codes "delete" ∷ [])
        (client.delete_json (record { domain = domain; max_reserve = max_reserve }))

  unfoldable pub upload_file : Text → Text → Text → Text → AdminRequest
  unfolding post_json
  upload_file domain version key content =
      post_json token (codes "file" ∷ codes "upload" ∷ []) (client.form domain version key content)

  unfoldable pub get_file_metadata : Text → ℕ → AdminRequest
  unfolding get_request to_string
  get_file_metadata domain version =
      get_request token (codes "files" ∷ codes "metadata" ∷ [])
        (client.query ((codes "domain", domain) ∷ (codes "version", to_string version) ∷ []))

  unfoldable pub get_upload_position : Text → AdminRequest
  unfolding get_request
  get_upload_position domain =
      get_request token (codes "upload" ∷ codes "position" ∷ [])
        (client.query ((codes "domain", domain) ∷ (codes "format", codes "Json") ∷ []))
