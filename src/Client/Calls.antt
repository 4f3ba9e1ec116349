-- ===== src/Client/Calls.antt =====
-- client/src/api.rs: the methods of `API`, over a transport: what becomes of a request on its way to
-- a server and back. What changes is the server's state.
use spa_server.Base.{ℕ, Bool, true, false, Option, none, some, List, [], ◌∷◌}
use spa_server.Base.{◌==◌, if◌then◌else◌, nat_eq}
use spa_server.Base.Text.{Text, codes}
use spa_server.Base.Text.Decimal.{to_string}
use spa_server.Storage.{ShortMetaData, UploadDomainPosition}
use spa_server.Admin.{UpdateUploadingStatusOption}
use spa_server.Admin.Routes.{AdminRequest}
use spa_server.Http.StatusCode
use spa_server.Client
use spa_server.Client.{ClientCrates, get_request}
use spa_server.Client.Upload.{Api}

-- `reqwest`'s response, read to its end.
pub record Response : Type 0 where
  pub status : ℕ
  pub text : Text

-- `anyhow::Error`: the request could not be built or sent, the server refused it with a text, or its
-- answer could not be read.
pub data ApiError : Type 0 where
  unsent : ApiError
  refused : Text → ApiError
  unreadable : ApiError

pub data ApiResult {ℓ} (A : Type ℓ) : Type ℓ where
  ok : A → ApiResult A
  err : ApiError → ApiResult A

-- `none` where nothing comes back.
abbrev pub Transport : Type 0 → Type 0
Transport S = AdminRequest → S → Option Response × S

-- The macros.
unfoldable pub handle : Option Response → ApiResult (Unit {0})
unfolding nat_eq
handle none = err unsent
handle (some r) = if r.status == StatusCode.ok then ok tt else err (refused r.text)

unfoldable pub string_resp : Option Response → ApiResult Text
unfolding nat_eq
string_resp none = err unsent
string_resp (some r) = if r.status == StatusCode.ok then ok r.text else err (refused r.text)

abbrev readable {ℓ} : {A : Type ℓ} → Option A → ApiResult A
readable none = err unreadable
readable (some a) = ok a

unfoldable pub json_resp {ℓ} : {A : Type ℓ} → (Text → Option A) → Option Response → ApiResult A
unfolding nat_eq
json_resp read none = err unsent
json_resp read (some r) =
    if r.status == StatusCode.ok then readable (read r.text) else err (refused r.text)

-- How `serde` reads the answers, and `reqwest` a query that is a list of texts.
pub record AnswerCrates : Type 0 where
  pub read_position : Text → Option UploadDomainPosition
  pub read_metadata : Text → Option (List ShortMetaData)
  -- any JSON, as it prints
  pub read_value : Text → Option Text
  pub query_texts : List Text → Option Text

abbrev answered {ℓ κ} : {S : Type 0} {A : Type ℓ} {B : Type κ} → (A → B) → A × S → B × S
answered f (a, s) = (f a, s)

abbrev pub succeeds {ℓ} : {A : Type ℓ} → ApiResult A → Bool
succeeds (ok _) = true
succeeds (err _) = false

abbrev pub succeeded {ℓ} : {A : Type ℓ} → ApiResult A → Option A
succeeded (ok a) = some a
succeeded (err _) = none

module _ {S : Type 0} (client : ClientCrates) (reads : AnswerCrates) (token : Text)
    (send : Transport S) where
  unfoldable pub get_domain_info : Option Text → S → ApiResult Text × S
  unfolding get_request json_resp
  get_domain_info none s =
      answered (json_resp reads.read_value) (send (get_request token (codes "status" ∷ []) []) s)
  get_domain_info (some domain) s = elim (reads.query_texts (codes "domain" ∷ domain ∷ [])) [
    | none ↦ (err unsent, s)
    | some query ↦
        answered (json_resp reads.read_value)
          (send (get_request token (codes "status" ∷ []) query) s)
  ]

  unfoldable pub change_uploading_status :
      UpdateUploadingStatusOption → S → ApiResult (Unit {0}) × S
  unfolding Client.change_uploading_status handle
  change_uploading_status param s =
      answered handle (send (Client.change_uploading_status client token param) s)

  unfoldable pub release_domain_version : Text → Option ℕ → S → ApiResult Text × S
  unfolding Client.release_domain_version string_resp
  release_domain_version domain version s =
      answered string_resp (send (Client.release_domain_version client token domain version) s)

  unfoldable pub reload_sap_server : S → ApiResult (Unit {0}) × S
  unfolding Client.reload_sap_server handle
  reload_sap_server s = answered handle (send (Client.reload_sap_server client token) s)

  unfoldable pub remove_files : Option Text → Option ℕ → S → ApiResult (Unit {0}) × S
  unfolding Client.remove_files handle
  remove_files domain max_reserve s =
      answered handle (send (Client.remove_files client token domain max_reserve) s)

  -- The file's content, once it is opened.
  unfoldable pub upload_file : Text → Text → Text → Text → S → ApiResult (Unit {0}) × S
  unfolding Client.upload_file handle
  upload_file domain version key content s =
      answered handle (send (Client.upload_file client token domain version key content) s)

  unfoldable pub get_file_metadata : Text → ℕ → S → ApiResult (List ShortMetaData) × S
  unfolding Client.get_file_metadata json_resp
  get_file_metadata domain version s =
      answered (json_resp reads.read_metadata)
        (send (Client.get_file_metadata client token domain version) s)

  unfoldable pub get_upload_position : Text → S → ApiResult UploadDomainPosition × S
  unfolding Client.get_upload_position json_resp
  get_upload_position domain s =
      answered (json_resp reads.read_position)
        (send (Client.get_upload_position client token domain) s)

  -- `API` as `upload_files` uses it, which prints the version.
  unfoldable pub api : Api S
  unfolding to_string change_uploading_status upload_file get_file_metadata get_upload_position
  api = record {
    get_upload_position = λ domain s. answered succeeded (get_upload_position domain s);
    get_file_metadata = λ domain version s. answered succeeded (get_file_metadata domain version s);
    change_uploading_status = λ param s. answered succeeds (change_uploading_status param s);
    upload_file = λ domain version key content s.
        answered succeeds (upload_file domain (to_string version) key content s);
  }
