-- ===== src/Admin/Escapes.antt =====
-- server/src/domain_storage.rs and server/src/admin_server.rs: domains that are absolute paths.
use mathlib.Core.List.{append_assoc}
use spa_server.Base.{ℕ, ◌≡◌, refl, ◌∙◌, subst, true, none, [], ◌∷◌, ◌++◌, arith}
use spa_server.Base.{nat_eq, list_eq, ap}
use spa_server.Base.Dict
use spa_server.Base.Text.{Text, starts_with}
use spa_server.Base.Text.Decimal.{to_string}
use spa_server.FilePath.{FilePath, slash, components, join}
use spa_server.FilePath.Names.{join_of_IsName, to_string-IsName}
use spa_server.FileSystem.{exists}
use spa_server.FileSystem.Laws.{exists_of_read}
use spa_server.Storage.{
  Site, DomainStorage, ok, err, uploading, uploading_file_name, version_path, get_version_path,
  marker_path, Result,
}
use spa_server.Storage.Paths.{marker_path_snoc}
use spa_server.Storage.Lifecycle.{Begun, Begun-of_uploading}
use spa_server.Storage.Upload.{update_uploading_status}
use spa_server.Http.StatusCode
use spa_server.Admin.Routes.Steps.{result_reply-site}
use spa_server.Admin.{change_upload_status, result_reply}

-- The directory of a version of such a domain does not depend on where the storage is.
version_path_absolute :
    (prefix : FilePath) (d : Text) (v : ℕ)
    → starts_with d slash ≡ true
    → version_path prefix d v ≡ (slash ∷ components d) ++ to_string v ∷ []
unfolding version_path join
version_path_absolute prefix d v absolute =
    rw (join_of_IsName (join prefix d) (to_string v) (to_string-IsName v), absolute)

marker_path_absolute :
    (s : DomainStorage) (d : Text) (v : ℕ)
    → starts_with d slash ≡ true
    → marker_path s d v ≡ (slash ∷ components d) ++ to_string v ∷ uploading_file_name ∷ []
unfolding get_version_path
marker_path_absolute s d v absolute =
    marker_path_snoc s d v
    ∙ ap (λ (p : FilePath). p ++ uploading_file_name ∷ [])
        (version_path_absolute s.prefix d v absolute)
    ∙ append_assoc (slash ∷ components d) (to_string v ∷ []) (uploading_file_name ∷ [])

done_of_ok :
    (r : Result (Unit {0}) × Site) → (result_reply r).0.status ≡ StatusCode.ok → r.0 ≡ ok tt
done_of_ok (ok tt, site) h = refl
done_of_ok (err e, site) h = ground (arith, h)

-- A request to begin an upload for a domain that is an absolute path, while none is on for it, that
-- the administration's server answers with 200: the marker file has been made below the domain's
-- own path, wherever the storage is.
pub change_upload_status-escapes :
    (site : Site) (d : Text) (v now : ℕ)
    → starts_with d slash ≡ true
    → Dict.lookup d site.storage.uploading_status ≡ none
    → (change_upload_status
        (record { domain = d; version = v; status = uploading })
        now
        site).0.status
      ≡ StatusCode.ok
    → exists
        (change_upload_status
          (record { domain = d; version = v; status = uploading })
          now
          site).1.fs
        ((slash ∷ components d) ++ to_string v ∷ uploading_file_name ∷ [])
      ≡ true
unfolding change_upload_status
change_upload_status-escapes site d v now absolute idle done =
    let r = update_uploading_status site d v uploading now in
    let b : Begun r.1 d v = Begun-of_uploading site d v now idle (done_of_ok r done) in
    let (f, there) = b.marked in
    rw (result_reply-site r) (
      subst (λ (p : FilePath). exists r.1.fs p ≡ true)
        (marker_path_absolute r.1.storage d v absolute)
        (exists_of_read r.1.fs (marker_path r.1.storage d v) f there))
