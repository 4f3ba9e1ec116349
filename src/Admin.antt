-- ===== src/Admin.antt =====
-- server/src/admin_server.rs: the requests of the administration's API and their handlers. A reply
-- in JSON is kept as the value that it prints.
pub mod Removal
pub mod Escapes
pub mod Routes
use spa_server.Base.{
  ℕ, ◌+◌, ◌-◌, ◌%◌, Bool, true, false, not, Option, none, some, List, [], ◌∷◌, ◌++◌,
}
use spa_server.Base.{
  ◌==◌, if◌then◌else◌, ltb, unwrap_or, map_some, and_then, or, filter, find, nat_eq, list_eq,
}
use spa_server.Base.Text.{Text, codes}
use spa_server.Base.Text.Decimal.{u32_mod, to_string, parse_u32}
use spa_server.FilePath.{to_str}
use spa_server.FileSystem.{FileSystem}
use spa_server.Crates.{Crates}
use spa_server.Storage.{
  Error, Result, ok, err, Site, DomainInfo, ShortMetaData, UploadingStatus, UploadDomainPosition,
  max_of, get_domain_info, get_domain_info_by_domain, get_upload_position, get_files_metadata,
}
use spa_server.Storage.Release.{upload_domain_with_version}
use spa_server.Storage.Upload.{save_file, update_uploading_status}
use spa_server.Storage.Upload
use spa_server.Http.StatusCode

pub record GetDomainOption : Type 0 where
  pub domain : Option Text

pub data GetDomainPositionFormat : Type 0 where
  path json : GetDomainPositionFormat

pub record GetDomainPositionOption : Type 0 where
  pub domain : Text
  pub format : GetDomainPositionFormat

pub record DomainWithVersionOption : Type 0 where
  pub domain : Text
  pub version : ℕ

pub record DomainWithOptVersionOption : Type 0 where
  pub domain : Text
  pub version : Option ℕ

pub record UpdateUploadingStatusOption : Type 0 where
  pub domain : Text
  pub version : ℕ
  pub status : UploadingStatus

pub record DeleteDomainVersionOption : Type 0 where
  pub domain : Option Text
  pub max_reserve : Option ℕ

-- The errors of the storage, those that the handler of uploads adds, and that of a reload that fails.
pub data AdminError : Type 0 where
  storage : Error → AdminError
  bad_part bad_params not_reloaded : AdminError

pub data Body : Type 0 where
  empty : Body
  text : Text → Body
  error : AdminError → Body
  domain_list : List DomainInfo → Body
  domain_entry : DomainInfo → Body
  position : UploadDomainPosition → Body
  metadata : List ShortMetaData → Body

pub record Reply : Type 0 where
  pub status : ℕ
  pub body : Body

abbrev pub ok_reply : Body → Reply
ok_reply body = record { status = StatusCode.ok; body = body }

abbrev pub status_reply : ℕ → Reply
status_reply status = record { status = status; body = empty }

abbrev pub bad_request : AdminError → Reply
bad_request e = record { status = StatusCode.bad_request; body = error e }

-- A part of a form: what its name is, and its data, `some none` where reading them fails.
pub record Part : Type 0 where
  pub name : Text
  pub content : Option (Option Text)

-- The variables of the loop over the parts.
pub record Fields : Type 0 where
  pub file_buf : Option Text
  pub path : Option Text
  pub version : Option ℕ
  pub domain : Option Text

abbrev pub no_fields : Fields
no_fields = record { file_buf = none; path = none; version = none; domain = none }

abbrev pub flat : Option (Option Text) → Option Text
flat none = none
flat (some c) = c

-- One round of the loop; `none` is an early return with an error. `from_utf8` is
-- `String::from_utf8`.
unfoldable pub read_part : (Text → Option Text) → Fields → Part → Option Fields
unfolding nat_eq list_eq parse_u32
read_part from_utf8 fields p =
    let content = flat p.content in
    if p.name == codes "file"
    then map_some (λ c. record fields { file_buf = some c }) content
    else if p.name == codes "path"
    then some (record fields { path = and_then content from_utf8 })
    else if p.name == codes "version"
    then some (record fields { version = and_then (and_then content from_utf8) parse_u32 })
    else if p.name == codes "domain"
    then some (record fields { domain = and_then content from_utf8 })
    else some fields

unfoldable pub read_parts : (Text → Option Text) → Fields → List Part → Option Fields
unfolding read_part
read_parts from_utf8 fields [] = some fields
read_parts from_utf8 fields (p ∷ parts) = elim (read_part from_utf8 fields p) [
  | none ↦ none
  | some fields' ↦ read_parts from_utf8 fields' parts
]

-- The versions that a request to delete names. The subtraction is that of `u32`, which wraps.
unfoldable pub delete_versions : DomainInfo → Option ℕ → List ℕ
unfolding max_of nat_eq
delete_versions info (some max_reserve) = elim (or info.current_version (max_of info.versions)) [
  | none ↦ []
  | some max_version ↦
      filter (λ v. ltb v ((max_version + u32_mod - max_reserve) % u32_mod)) info.versions
]
delete_versions info none =
    filter (λ v. not (v == unwrap_or info.current_version (u32_mod - 1))) info.versions

unfoldable pub remove_versions : Site → Text → List ℕ → Site
unfolding Upload.remove_domain_version
remove_versions site domain [] = site
remove_versions site domain (v ∷ versions) =
    remove_versions (Upload.remove_domain_version site domain (some v)).1 domain versions

unfoldable pub remove_infos : Site → List DomainInfo → Option ℕ → Site
unfolding delete_versions remove_versions
remove_infos site [] max_reserve = site
remove_infos site (i ∷ infos) max_reserve =
    remove_infos (remove_versions site i.domain (delete_versions i max_reserve)) infos max_reserve

abbrev position_reply : GetDomainPositionFormat → UploadDomainPosition → Reply
unfolding to_str
position_reply json ret = ok_reply (position ret)
position_reply path ret = ok_reply (text (to_str ret.path))

-- The reply to a result that carries nothing.
abbrev pub result_reply : Result (Unit {0}) × Site → Reply × Site
result_reply (ok _, site) = (ok_reply empty, site)
result_reply (err e, site) = (bad_request (storage e), site)

module _ (crates : Crates) where
  unfoldable pub get_domain_info_handler : GetDomainOption → Site → Reply
  unfolding get_domain_info nat_eq list_eq
  get_domain_info_handler option site =
      let domain_info = get_domain_info crates site.storage site.fs in
      elim option.domain [
        | none ↦ ok_reply (domain_list domain_info)
        | some domain ↦ elim (find (λ x. x.domain == domain) domain_info) [
          | none ↦ status_reply StatusCode.not_found
          | some found ↦ ok_reply (domain_entry found)
        ]
      ]

  unfoldable pub update_domain_version : DomainWithOptVersionOption → Site → Reply × Site
  unfolding upload_domain_with_version to_string
  update_domain_version option site =
      let (result, site') = upload_domain_with_version crates site option.domain option.version in
      (
        elim result [
          | ok version ↦ ok_reply (
              text
                (codes "domain:" ++ option.domain ++ codes " has changed to " ++ to_string version))
          | err e ↦ status_reply StatusCode.not_found
        ],
        site',
      )

  unfoldable pub get_upload_position_handler : GetDomainPositionOption → Site → Reply
  unfolding get_upload_position to_str
  get_upload_position_handler option site =
      if crates.is_uri option.domain
      then position_reply option.format
          (get_upload_position crates site.storage site.fs option.domain)
      else status_reply StatusCode.bad_request

  -- The end of `service::update_file`: every field is needed.
  unfoldable pub save_fields :
      Option Text → Option ℕ → Option Text → Option Text → ℕ → Site → Reply × Site
  unfolding save_file
  save_fields (some to) (some version) (some domain) (some file_buf) now site =
      result_reply (save_file crates site domain version to file_buf now)
  save_fields _ _ _ _ now site = (bad_request bad_params, site)

  -- `service::update_file`, with its errors as the route's handler answers them.
  unfoldable pub update_file : (Text → Option Text) → List Part → ℕ → Site → Reply × Site
  unfolding read_parts save_fields
  update_file from_utf8 parts now site = elim (read_parts from_utf8 no_fields parts) [
    | none ↦ (bad_request bad_part, site)
    | some fields ↦ save_fields fields.path fields.version fields.domain fields.file_buf now site
  ]

  unfoldable pub get_files_metadata_handler : DomainWithVersionOption → Site → Reply
  unfolding get_files_metadata
  get_files_metadata_handler query site =
      ok_reply
        (metadata (get_files_metadata crates site.storage site.fs query.domain query.version))

  abbrev one_info : Option DomainInfo → List DomainInfo
  one_info none = []
  one_info (some i) = i ∷ []

  unfoldable pub domains_info : Option Text → Site → List DomainInfo
  unfolding get_domain_info get_domain_info_by_domain
  domains_info (some domain) site =
      one_info (get_domain_info_by_domain crates site.storage site.fs domain)
  domains_info none site = get_domain_info crates site.storage site.fs

  unfoldable pub remove_domain_version : DeleteDomainVersionOption → Site → Reply × Site
  unfolding domains_info remove_infos
  remove_domain_version query site =
      (ok_reply empty, remove_infos site (domains_info query.domain site) query.max_reserve)

unfoldable pub change_upload_status : UpdateUploadingStatusOption → ℕ → Site → Reply × Site
unfolding update_uploading_status
change_upload_status param now site =
    result_reply (update_uploading_status site param.domain param.version param.status now)

-- `build_async_job`: what the job that is repeated does each time it runs.
unfoldable pub async_job : Crates → Option ℕ → Site → Site
unfolding remove_domain_version
async_job crates max_reserve site =
    (remove_domain_version crates (record { domain = none; max_reserve = max_reserve }) site).1
