-- ===== src/Storage/Markers.antt =====
-- server/src/domain_storage.rs: the marker files on disk against the uploads that are on.
pub mod Uploads
pub mod Steps
pub mod Again
use mathlib.Core.List.{append_assoc}
use spa_server.Base.{
  ℕ, ◌<◌, ◌≡◌, ◌≢◌, refl, ◌∙◌, sym, ap, subst, true, false, inl, inr, Option, none, some, List, [],
  ◌∷◌, ◌++◌, arith,
}
use spa_server.Base.{
  ◌==◌, if◌then◌else◌, is_some, map_some, Bool-cases, Option-cases, nat_eq, list_eq, option_eq,
  some-injective, eq_of_==, ◌&&◌, ==-refl,
}
use spa_server.Base.Dict
use spa_server.Base.Text.{Text}
use spa_server.Base.Text.Decimal.{u32_mod, to_string}
use spa_server.FilePath.{FilePath, is_under, join}
use spa_server.FilePath.Names.{IsName, is_under-snoc, is_under-append}
use spa_server.FileSystem.{Node, FileSystem, exists, remove_file, create, create_dir_all}
use spa_server.FileSystem.Frames.{
  is_under_refl, is_under_trans, apart_of_not_above, remove_file-outside, create_dir_all-outside,
  create-outside,
}
use spa_server.Crates.{Crates}
use spa_server.Storage.{
  DomainStorage, Site, UploadingStatus, uploading_file_name, get_version_path, version_path,
  marker_path, check_is_in_upload_process,
}
use spa_server.Storage.Paths.{
  version_path-below, version_path_of_IsName, marker_path-under, marker_path_snoc,
}
use spa_server.Storage.Frames.{
  IsSanitizer, save_at-outside, begin_upload-outside, remove_path-lookup,
}
use spa_server.Storage.Exclusive.{save_file_storage, remove_domain_version_storage}
use spa_server.Storage.Isolation.{root, IsPlain}
use spa_server.Storage.Release.{chosen_version, release, upload_domain_with_version}
use spa_server.Storage.Upload.{
  save_file, save_at, update_uploading_status, finish_upload, begin_upload, remove_domain_version,
  remove_path,
}
use spa_server.Storage.Reachable.{
  Step, released, saved, status_changed, removed, Reach, here, next, Each, step_domain,
  step_version,
}

-- The place of a marker in the directory of a name below a domain's directory.
abbrev pub marker_at : FilePath → Text → Text → FilePath
marker_at prefix d x = (prefix ++ d ∷ []) ++ x ∷ uploading_file_name ∷ []

-- A marker that is on disk marks the upload that is on, and its version is a `u32`.
pub record IsMarked (a : Site) : Type 0 where
  pub marked :
      (d x : Text)
      → exists a.fs (marker_at a.storage.prefix d x) ≡ true
      → map_some to_string (Dict.lookup d a.storage.uploading_status) ≡ some x
  pub fits : (d : Text) (v : ℕ) → Dict.lookup d a.storage.uploading_status ≡ some v → v < u32_mod

pub marker_path_of_IsName :
    (s : DomainStorage) (d : Text) (v : ℕ)
    → IsName d
    → marker_path s d v ≡ marker_at s.prefix d (to_string v)
unfolding get_version_path
marker_path_of_IsName s d v named =
    rw (
      marker_path_snoc s d v,
      version_path_of_IsName s.prefix d v named,
      append_assoc,
      append_assoc,
    )

-- A marker above or at a path below a version's directory is that of the version.
pub marker_above :
    (prefix p : FilePath) (d e x : Text) (v : ℕ)
    → IsName e
    → is_under (version_path prefix e v) p ≡ true
    → is_under (marker_at prefix d x) p ≡ true
    → (d ≡ e) × (x ≡ to_string v)
marker_above prefix p d e x v named h k =
    let deep : is_under ((prefix ++ d ∷ []) ++ x ∷ []) p ≡ true =
      is_under_trans _ _ p
        (rw (← append_assoc (prefix ++ d ∷ []) (x ∷ []) (uploading_file_name ∷ []))
          (is_under-append ((prefix ++ d ∷ []) ++ x ∷ []) (uploading_file_name ∷ [])))
        k in
    let same : d ≡ e =
      is_under-snoc prefix p d e
        (is_under_trans (prefix ++ d ∷ []) _ p (is_under-append (prefix ++ d ∷ []) (x ∷ [])) deep)
        (is_under_trans (prefix ++ e ∷ []) _ p (version_path-below prefix e v named) h) in
    (
      same,
      is_under-snoc (prefix ++ e ∷ []) p x (to_string v)
          (subst (λ (c : Text). is_under ((prefix ++ c ∷ []) ++ x ∷ []) p ≡ true) same deep)
          (subst (λ (q : FilePath). is_under q p ≡ true)
            (version_path_of_IsName prefix e v named
              ∙ sym (append_assoc prefix (e ∷ []) (to_string v ∷ [])))
            h),
    )

is_under-snoc_self : (p : FilePath) (c : Text) → is_under (p ++ c ∷ []) p ≡ false
unfolding is_under
is_under-snoc_self [] c = refl
is_under-snoc_self (d ∷ p) c = ground (arith, is_under-snoc_self p c)

-- No marker is above or at a version's directory.
pub marker-version_path :
    (prefix : FilePath) (d e x : Text) (v : ℕ)
    → IsName e
    → is_under (marker_at prefix d x) (version_path prefix e v) ≡ false
marker-version_path prefix d e x v named =
    let p : FilePath = version_path prefix e v in
    elim (Bool-cases (is_under (marker_at prefix d x) p)) [
      | inr apart ↦ apart
      | inl above ↦
          let (same, name) = marker_above prefix p d e x v named (is_under_refl p) above in
          let whole : p ++ uploading_file_name ∷ [] ≡ marker_at prefix d x =
            rw (version_path_of_IsName prefix e v named, append_assoc, append_assoc, same, name) in
          absurd (
            ground (
              arith,
              is_under-snoc_self p uploading_file_name,
              subst (λ (q : FilePath). is_under q p ≡ true) (sym whole) above,
            ))
    ]

-- The marker of a version is at its path alone.
pub marker_at-marker_path :
    (s : DomainStorage) (d e x : Text) (v : ℕ)
    → IsName e
    → marker_at s.prefix d x ≡ marker_path s e v
    → (d ≡ e) × (x ≡ to_string v)
unfolding get_version_path
marker_at-marker_path s d e x v named h =
    marker_above s.prefix (marker_path s e v) d e x v named (marker_path-under s e v)
      (rw h (is_under_refl (marker_path s e v)))
