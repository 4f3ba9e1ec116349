-- ===== src/Admin/Routes.antt =====
-- server/src/admin_server.rs: `AdminServer::routes`, from a request to the handler that answers it.
pub mod Steps
use spa_server.Base.{ℕ, ◌*◌, Bool, Option, none, some, List, [], ◌∷◌, ◌++◌}
use spa_server.Base.{◌==◌, if◌then◌else◌, leb, nat_eq, list_eq, option_eq}
use spa_server.Base.Dict
use spa_server.Base.Dict.{Dict}
use spa_server.Base.Text.{Text, codes}
use spa_server.Config.{AdminConfig}
use spa_server.Crates.{Crates}
use spa_server.Storage.{Site}
use spa_server.Admin.{
  GetDomainOption, GetDomainPositionOption, DomainWithVersionOption, DomainWithOptVersionOption,
  UpdateUploadingStatusOption, DeleteDomainVersionOption, Part, Reply, bad_request, bad_part,
  get_domain_info_handler, get_upload_position_handler, get_files_metadata_handler,
  update_domain_version, change_upload_status, update_file, remove_domain_version,
}

-- A request by the segments of its path.
pub record AdminRequest : Type 0 where
  pub method : Text
  pub path : List Text
  pub query : Text
  pub headers : Dict Text Text
  pub content_length : Option ℕ
  pub body : Text

-- How `serde` reads a query or a body, and `warp` a form: parameters of the model. `none` rejects
-- the request. The inner option of `form` is what `try_collect` makes of the form.
pub record AdminCrates : Type 0 where
  pub query_domain : Text → Option GetDomainOption
  pub query_position : Text → Option GetDomainPositionOption
  pub query_version : Text → Option DomainWithVersionOption
  pub query_delete : Text → Option DeleteDomainVersionOption
  pub json_release : Text → Option DomainWithOptVersionOption
  pub json_status : Text → Option UpdateUploadingStatusOption
  pub form : Text → Option (Option (List Part))
  pub from_utf8 : Text → Option Text

pub data Routed : Type 0 where
  answered : Reply → Site → Routed
  -- the handler of `reload`, which works on the server and not on the storage
  reloads : Routed
  rejected : Routed

-- `a.or(b)`
abbrev pub or_route : Routed → Routed → Routed
or_route rejected b = b
or_route (answered reply site) b = answered reply site
or_route reloads b = reloads

-- A reply that leaves the site alone, and one that comes with a new site.
abbrev read_only : Site → Reply → Routed
read_only site reply = answered reply site

abbrev changed : Reply × Site → Routed
changed (reply, site) = answered reply site

abbrev given {ℓ} : {A : Type ℓ} → Option A → (A → Routed) → Routed
given none f = rejected
given (some a) f = f a

abbrev on_path : List Text → List Text → Routed → Routed
unfolding nat_eq list_eq
on_path path expected r = if path == expected then r else rejected

-- `warp::path("status")`, which does not ask for the path's end.
abbrev starts_path : List Text → Text → Routed → Routed
unfolding nat_eq list_eq
starts_path [] segment r = rejected
starts_path (s ∷ path) segment r = if s == segment then r else rejected

-- `content_length_limit`
abbrev within : ℕ → Option ℕ → Routed → Routed
within limit none r = rejected
within limit (some n) r = if leb n limit then r else rejected

unfoldable pub auth : AdminConfig → AdminRequest → Bool
unfolding Dict.lookup nat_eq list_eq option_eq
auth conf req =
    Dict.lookup (codes "authorization") req.headers == some (codes "Bearer " ++ conf.token)

module _ (crates : Crates) (admin : AdminCrates) where
  unfoldable pub get_routes : AdminRequest → Site → Routed
  unfolding starts_path on_path get_domain_info_handler get_upload_position_handler
      get_files_metadata_handler
  get_routes req site =
      or_route
        (starts_path req.path (codes "status") (
          given (admin.query_domain req.query)
            (λ o. read_only site (get_domain_info_handler crates o site))))
        (or_route
          (on_path req.path (codes "upload" ∷ codes "position" ∷ []) (
            given (admin.query_position req.query)
              (λ o. read_only site (get_upload_position_handler crates o site))))
          (on_path req.path (codes "files" ∷ codes "metadata" ∷ []) (
            given (admin.query_version req.query)
              (λ o. read_only site (get_files_metadata_handler crates o site)))))

  abbrev upload_form : Option (List Part) → ℕ → Site → Routed
  upload_form none now site = answered (bad_request bad_part) site
  upload_form (some parts) now site = changed (update_file crates admin.from_utf8 parts now site)

  unfoldable pub post_routes : AdminConfig → AdminRequest → ℕ → Site → Routed
  unfolding on_path update_domain_version change_upload_status update_file remove_domain_version
  post_routes conf req now site =
      or_route
        (on_path req.path (codes "update_version" ∷ []) (
          within (1024 * 16) req.content_length (
            given (admin.json_release req.body)
              (λ o. changed (update_domain_version crates o site)))))
        (or_route (on_path req.path (codes "reload" ∷ []) reloads) (
          or_route
            (on_path req.path (codes "files" ∷ codes "upload_status" ∷ []) (
              within (1024 * 16) req.content_length (
                given (admin.json_status req.body)
                  (λ o. changed (change_upload_status o now site)))))
            (or_route
              (on_path req.path (codes "file" ∷ codes "upload" ∷ []) (
                within conf.max_upload_size req.content_length
                  (given (admin.form req.body) (λ parts. upload_form parts now site))))
              (on_path req.path (codes "files" ∷ codes "delete" ∷ []) (
                given (admin.query_delete req.query)
                  (λ o. changed (remove_domain_version crates o site)))))))

  unfoldable pub routes : AdminConfig → AdminRequest → ℕ → Site → Routed
  unfolding auth get_routes post_routes nat_eq list_eq
  routes conf req now site =
      if auth conf req
      then if req.method == codes "GET"
        then get_routes req site
        else if req.method == codes "POST"
        then post_routes conf req now site
        else rejected
      else rejected
