-- ===== src/Admin/Routes/Steps.antt =====
-- server/src/admin_server.rs: what a request to the administration's API does to the storage, as steps.
use spa_server.Base.{
  ◌*◌, ℕ, ◌≡◌, refl, true, false, inl, inr, Bool, Option, none, some, List, [], ◌∷◌,
}
use spa_server.Base.{◌==◌, if◌then◌else◌, leb, Option-cases, nat_eq, list_eq, option_eq}
use spa_server.Base.Text.{Text, codes}
use spa_server.Config.{AdminConfig}
use spa_server.Crates.{Crates}
use spa_server.Storage.{Site, DomainInfo, Result, ok, err}
use spa_server.Storage.Reachable.{
  released, saved, status_changed, removed, Reach, here, next, Reach-trans,
}
use spa_server.Admin.{
  Part, Reply, result_reply, read_parts, save_fields, no_fields, remove_versions, remove_infos,
  delete_versions, DomainWithOptVersionOption, UpdateUploadingStatusOption,
  DeleteDomainVersionOption, update_domain_version, change_upload_status, update_file,
  remove_domain_version, domains_info,
}
use spa_server.Storage.Upload
use spa_server.Storage.Upload.{save_file, update_uploading_status}
use spa_server.Admin.Routes.{
  AdminCrates, AdminRequest, Routed, answered, reloads, rejected, or_route, given, starts_path,
  within, changed, upload_form, get_routes, post_routes, routes, auth,
}

pub result_reply-site : (r : Result (Unit {0}) × Site) → (result_reply r).1 ≡ r.1
result_reply-site (ok _, site) = refl
result_reply-site (err e, site) = refl

module _ (crates : Crates) where
  update_domain_version-Reach :
      (o : DomainWithOptVersionOption) (a : Site)
      → Reach crates a (update_domain_version crates o a).1
  unfolding update_domain_version
  update_domain_version-Reach o a = next here (released o.domain o.version)

  change_upload_status-Reach :
      (o : UpdateUploadingStatusOption) (now : ℕ) (a : Site)
      → Reach crates a (change_upload_status o now a).1
  unfolding change_upload_status
  change_upload_status-Reach o now a =
      rw (result_reply-site (update_uploading_status a o.domain o.version o.status now))
        (next here (status_changed o.domain o.version o.status now))

  save_fields-Reach :
      (to : Option Text) (version : Option ℕ) (domain file_buf : Option Text) (now : ℕ) (a : Site)
      → Reach crates a (save_fields crates to version domain file_buf now a).1
  unfolding save_fields
  save_fields-Reach none version domain file_buf now a = here
  save_fields-Reach (some to) none domain file_buf now a = here
  save_fields-Reach (some to) (some version) none file_buf now a = here
  save_fields-Reach (some to) (some version) (some domain) none now a = here
  save_fields-Reach (some to) (some version) (some domain) (some file_buf) now a =
      rw (result_reply-site (save_file crates a domain version to file_buf now))
        (next here (saved domain version to file_buf now))

  update_file-Reach :
      (from_utf8 : Text → Option Text) (parts : List Part) (now : ℕ) (a : Site)
      → Reach crates a (update_file crates from_utf8 parts now a).1
  unfolding update_file
  update_file-Reach from_utf8 parts now a =
      elim (Option-cases (read_parts from_utf8 no_fields parts)) [
        | inl failed ↦ rw (failed, update_file) here
        | inr (f, done) ↦
            rw (done, update_file) (save_fields-Reach f.path f.version f.domain f.file_buf now a)
      ]

  remove_versions-Reach :
      (a : Site) (d : Text) (vs : List ℕ) → Reach crates a (remove_versions a d vs)
  unfolding remove_versions
  remove_versions-Reach a d [] = here
  remove_versions-Reach a d (v ∷ vs) =
      let b : Site = (Upload.remove_domain_version a d (some v)).1 in
      Reach-trans crates a b (remove_versions b d vs) (next here (removed d (some v)))
        (remove_versions-Reach b d vs)

  remove_infos-Reach :
      (a : Site) (infos : List DomainInfo) (reserve : Option ℕ)
      → Reach crates a (remove_infos a infos reserve)
  unfolding remove_infos
  remove_infos-Reach a [] reserve = here
  remove_infos-Reach a (i ∷ infos) reserve =
      let b : Site = remove_versions a i.domain (delete_versions i reserve) in
      Reach-trans crates a b (remove_infos b infos reserve)
        (remove_versions-Reach a i.domain (delete_versions i reserve))
        (remove_infos-Reach b infos reserve)

  remove_domain_version-Reach :
      (o : DeleteDomainVersionOption) (a : Site)
      → Reach crates a (remove_domain_version crates o a).1
  unfolding remove_domain_version
  remove_domain_version-Reach o a =
      remove_infos-Reach a (domains_info crates o.domain a) o.max_reserve

  -- What an answer leaves is what steps make of the site that the request came to.
  pub data Leads (a : Site) : Routed → Type 0 where
    by_answer : {reply : Reply} {b : Site} → Reach crates a b → Leads a (answered reply b)
    by_reload : Leads a reloads
    by_rejection : Leads a rejected

  Leads-or_route : (a : Site) (r t : Routed) → Leads a r → Leads a t → Leads a (or_route r t)
  Leads-or_route a rejected t h k = k
  Leads-or_route a (answered reply b) t h k = h
  Leads-or_route a reloads t h k = h

  Leads-changed : (a : Site) (r : Reply × Site) → Reach crates a r.1 → Leads a (changed r)
  Leads-changed a (reply, b) h = by_answer h

  Leads-given {ℓ} :
      {A : Type ℓ} (a : Site) (o : Option A) (f : A → Routed)
      → ((x : A) → Leads a (f x))
      → Leads a (given o f)
  Leads-given a none f h = by_rejection
  Leads-given a (some x) f h = h x

  Leads-if :
      (a : Site) (b : Bool) (r t : Routed) → Leads a r → Leads a t → Leads a (if b then r else t)
  Leads-if a true r t h k = h
  Leads-if a false r t h k = k

  Leads-starts_path :
      (a : Site) (path : List Text) (segment : Text) (r : Routed)
      → Leads a r
      → Leads a (starts_path path segment r)
  unfolding starts_path
  Leads-starts_path a [] segment r h = by_rejection
  Leads-starts_path a (s ∷ path) segment r h = Leads-if a (s == segment) r rejected h by_rejection

  Leads-within :
      (a : Site) (limit : ℕ) (n : Option ℕ) (r : Routed) → Leads a r → Leads a (within limit n r)
  Leads-within a limit none r h = by_rejection
  Leads-within a limit (some n) r h = Leads-if a (leb n limit) r rejected h by_rejection

  module _ (admin : AdminCrates) (req : AdminRequest) (now : ℕ) (a : Site) where
    get_routes-Leads : Leads a (get_routes crates admin req a)
    unfolding get_routes
    get_routes-Leads =
        Leads-or_route a _ _
          (Leads-starts_path a req.path (codes "status") _
            (Leads-given a (admin.query_domain req.query) _ (λ o. by_answer here)))
          (Leads-or_route a _ _
            (Leads-if a (req.path == codes "upload" ∷ codes "position" ∷ []) _ _
              (Leads-given a (admin.query_position req.query) _ (λ o. by_answer here)) by_rejection)
            (Leads-if a (req.path == codes "files" ∷ codes "metadata" ∷ []) _ _
              (Leads-given a (admin.query_version req.query) _ (λ o. by_answer here)) by_rejection))

    upload_form-Leads :
        (parts : Option (List Part)) → Leads a (upload_form crates admin parts now a)
    upload_form-Leads none = by_answer here
    upload_form-Leads (some parts) =
        Leads-changed a (update_file crates admin.from_utf8 parts now a)
          (update_file-Reach admin.from_utf8 parts now a)

    post_routes-Leads : (conf : AdminConfig) → Leads a (post_routes crates admin conf req now a)
    unfolding post_routes
    post_routes-Leads conf =
        Leads-or_route a _ _
          (Leads-if a (req.path == codes "update_version" ∷ []) _ _
            (Leads-within a (1024 * 16) req.content_length _ (
              Leads-given a (admin.json_release req.body) _ (λ o.
                Leads-changed a (update_domain_version crates o a)
                  (update_domain_version-Reach o a))))
            by_rejection)
          (Leads-or_route a _ _
            (Leads-if a (req.path == codes "reload" ∷ []) reloads _ by_reload by_rejection)
            (Leads-or_route a _ _
              (Leads-if a (req.path == codes "files" ∷ codes "upload_status" ∷ []) _ _
                (Leads-within a (1024 * 16) req.content_length _ (
                  Leads-given a (admin.json_status req.body) _ (λ o.
                    Leads-changed a (change_upload_status o now a)
                      (change_upload_status-Reach o now a))))
                by_rejection)
              (Leads-or_route a _ _
                (Leads-if a (req.path == codes "file" ∷ codes "upload" ∷ []) _ _
                  (Leads-within a conf.max_upload_size req.content_length _
                    (Leads-given a (admin.form req.body) _ upload_form-Leads))
                  by_rejection)
                (Leads-if a (req.path == codes "files" ∷ codes "delete" ∷ []) _ _
                  (Leads-given a (admin.query_delete req.query) _ (λ o.
                    Leads-changed a (remove_domain_version crates o a)
                      (remove_domain_version-Reach o a)))
                  by_rejection))))

    pub routes_lead : (conf : AdminConfig) → Leads a (routes crates admin conf req now a)
    unfolding routes
    routes_lead conf =
        Leads-if a (auth conf req) _ _
          (Leads-if a _ _ _ get_routes-Leads
            (Leads-if a _ _ _ (post_routes-Leads conf) by_rejection))
          by_rejection
