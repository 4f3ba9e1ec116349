-- ===== src/Storage/Markers/Steps.antt =====
-- server/src/domain_storage.rs: the requests keep the markers and the uploads in step.
use spa_server.Base.{ℕ, ◌<◌, ◌≡◌, sym, subst, true, inl, inr, Option, none, some, arith}
use spa_server.Base.{map_some, Bool-cases, Option-cases, nat_eq, list_eq, option_eq}
use spa_server.Base.Dict
use spa_server.Base.Text.{Text}
use spa_server.Base.Text.Decimal.{u32_mod, to_string}
use spa_server.FilePath.{FilePath, is_under}
use spa_server.FilePath.Names.{IsName}
use spa_server.FileSystem.{exists}
use spa_server.Crates.{Crates}
use spa_server.Storage.{
  DomainStorage, Site, UploadingStatus, get_version_path, check_is_in_upload_process,
}
use spa_server.Storage.Frames.{IsSanitizer, save_at-outside, remove_path-lookup}
use spa_server.Storage.Exclusive.{save_file_storage, remove_path_storage}
use spa_server.Storage.Isolation.{IsPlain}
use spa_server.Storage.Release.{release, upload_domain_with_version}
use spa_server.Storage.Upload.{
  save_file, update_uploading_status, remove_domain_version, remove_path,
}
use spa_server.Storage.Reachable.{
  Step, released, saved, status_changed, removed, Reach, here, next, Each, step_domain,
  step_version,
}
use spa_server.Storage.Markers.{IsMarked, marker_at, marker_above}
use spa_server.Storage.Markers.Uploads.{begin_upload-IsMarked, finish_upload-IsMarked}

IsMarked-of_storage :
    (a b : Site)
    → b.storage ≡ a.storage
    → ((d x : Text)
        → exists b.fs (marker_at a.storage.prefix d x) ≡ true
        → map_some to_string (Dict.lookup d a.storage.uploading_status) ≡ some x)
    → IsMarked a
    → IsMarked b
IsMarked-of_storage a b same up h = record {
  marked = λ d x there.
      subst (λ (s : DomainStorage). map_some to_string (Dict.lookup d s.uploading_status) ≡ some x)
        (sym same)
        (up d x
          (subst (λ (s : DomainStorage). exists b.fs (marker_at s.prefix d x) ≡ true) same there));
  fits = λ d w k.
      h.fits d w (subst (λ (s : DomainStorage). Dict.lookup d s.uploading_status ≡ some w) same k);
}

remove_path-IsMarked : (a : Site) (p : FilePath) → IsMarked a → IsMarked (remove_path a p).1
unfolding exists
remove_path-IsMarked a p h =
    IsMarked-of_storage a (remove_path a p).1 (remove_path_storage a p)
      (λ d x there.
        let q : FilePath = marker_at a.storage.prefix d x in
        elim (Option-cases (Dict.lookup q (remove_path a p).1.fs)) [
          | inl missing ↦ ground (arith, missing, there)
          | inr (n, found) ↦ h.marked d x (ground (arith, remove_path-lookup a p q n found))
        ])
      h

remove_domain_version-IsMarked :
    (a : Site) (e : Text) (v : Option ℕ) → IsMarked a → IsMarked (remove_domain_version a e v).1
unfolding remove_domain_version
remove_domain_version-IsMarked a e none h = remove_path-IsMarked a _ h
remove_domain_version-IsMarked a e (some v) h = remove_path-IsMarked a _ h

update_uploading_status-IsMarked :
    (a : Site) (e : Text) (v : ℕ) (status : UploadingStatus) (now : ℕ)
    → IsName e
    → v < u32_mod
    → IsMarked a
    → IsMarked (update_uploading_status a e v status now).1
unfolding update_uploading_status
update_uploading_status-IsMarked a e v status now named small h =
    ground
      (arith, h, finish_upload-IsMarked a e v named h, begin_upload-IsMarked a e v now named small)

-- A version, if one is given, is a `u32`.
abbrev pub Fits : Option ℕ → Type 0
Fits none = Unit {0}
Fits (some v) = v < u32_mod

module _ (crates : Crates) where
  -- A request whose domain's name is one component of a path and not "..", and whose version is a
  -- `u32`.
  abbrev pub IsRequest : (a b : Site) → Step crates a b → Type 0
  IsRequest a b s = IsPlain (step_domain crates s) × Fits (step_version crates s)

module _ (crates : Crates) (clean : IsSanitizer crates) where
  save_file-marker :
      (a : Site) (e : Text) (v : ℕ) (key content : Text) (now : ℕ) (d x : Text)
      → IsName e
      → IsMarked a
      → exists (save_file crates a e v key content now).1.fs (marker_at a.storage.prefix d x) ≡ true
      → map_some to_string (Dict.lookup d a.storage.uploading_status) ≡ some x
  unfolding save_file exists check_is_in_upload_process get_version_path
  save_file-marker a e v key content now d x named h there =
      let s : DomainStorage = a.storage in
      elim (Option-cases (crates.sanitize_path (get_version_path s e v) key)) [
        | inl refused ↦ ground (arith, refused, there, h.marked d x)
        | inr (path, names) ↦ elim (Bool-cases (is_under (marker_at s.prefix d x) path)) [
          | inr apart ↦ ground (
            arith,
            names,
            there,
            h.marked d x,
            save_at-outside path (marker_at s.prefix d x) content now a.fs apart,
          )
          | inl above ↦
              let (domain, name) =
                marker_above s.prefix path d e x v named
                  (clean.below (get_version_path s e v) path key names) above in
              ground (arith, names, there, domain, name, h.marked d x)
        ]
      ]

  upload_domain_with_version-IsMarked :
      (a : Site) (e : Text) (v : Option ℕ)
      → IsMarked a
      → IsMarked (upload_domain_with_version crates a e v).1
  unfolding upload_domain_with_version release
  upload_domain_with_version-IsMarked a e v h = record {
    marked = λ d x there. ground (arith, h.marked d x);
    fits = λ d w up. ground (arith, h.fits d w);
  }

  Step-IsMarked :
      (a b : Site) (s : Step crates a b) → IsRequest crates a b s → IsMarked a → IsMarked b
  Step-IsMarked a b (released e v) k h = upload_domain_with_version-IsMarked a e v h
  Step-IsMarked a b (saved e v path content now) k h =
      IsMarked-of_storage a _ (save_file_storage crates a e v path content now)
        (λ d x there. save_file-marker a e v path content now d x k.0.0 h there) h
  Step-IsMarked a b (status_changed e v status now) k h =
      update_uploading_status-IsMarked a e v status now k.0.0 k.1 h
  Step-IsMarked a b (removed e v) k h = remove_domain_version-IsMarked a e v h

  -- Whatever requests are carried out one after another, in any order and whether or not they fail,
  -- each for a domain whose name is one component of a path and not ".." and for a version that is a
  -- `u32`: if each marker file that is on disk at the start is that of the version that its domain
  -- uploads, and these versions are `u32`, it is so at the end.
  pub Reach-IsMarked :
      (a b : Site) (r : Reach crates a b)
      → Each crates (IsRequest crates) r
      → IsMarked a
      → IsMarked b
  Reach-IsMarked a b here k h = h
  Reach-IsMarked a b (next {b = m} r s) (before, last) h =
      Step-IsMarked m b s last (Reach-IsMarked a m r before h)
