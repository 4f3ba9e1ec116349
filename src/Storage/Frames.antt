-- ===== src/Storage/Frames.antt =====
-- server/src/domain_storage.rs: what each method leaves alone on the disk.
use spa_server.Base.{ℕ, ◌≡◌, true, false, inl, inr, some, arith}
use spa_server.Base.{◌==◌, Option-cases, nat_eq, list_eq, option_eq}
use spa_server.Base.Dict
use spa_server.Base.Text.{Text}
use spa_server.FilePath.{FilePath, is_under, parent}
use spa_server.FileSystem.{Node, file, FileSystem, create, create_dir_all, remove_file}
use spa_server.FileSystem.Frames.{
  apart_of_not_above, not_above-part, parent-above, create_dir_all-outside, create-outside,
  remove_file-outside,
}
use spa_server.FileSystem.Laws.{lookup-prune}
use spa_server.Crates.{Crates}
use spa_server.Storage.{Site, UploadingStatus, get_version_path, marker_path}
use spa_server.Storage.Paths.{marker_path-under}
use spa_server.Storage.Upload.{
  save_file, save_at, write_file, update_uploading_status, begin_upload, finish_upload, remove_path,
}

write_file-outside :
    (path q : FilePath) (content : Text) (now : ℕ) (fs : FileSystem)
    → is_under q path ≡ false
    → Dict.lookup q (write_file path content now fs).1 ≡ Dict.lookup q fs
unfolding write_file
write_file-outside path q content now fs h =
    let other : (q == path) ≡ false = apart_of_not_above path q h in
    elim (Option-cases (create fs path now)) [
      | inl failed ↦ ground (arith, failed)
      | inr (made, done) ↦ ground (
        arith,
        done,
        other,
        create-outside fs made path q now done other,
        Dict.lookup-insert q path (file (record { content = content; modified = now })) made,
      )
    ]

-- A transfer changes nothing but what lies above or at the path that it writes.
pub save_at-outside :
    (path q : FilePath) (content : Text) (now : ℕ) (fs : FileSystem)
    → is_under q path ≡ false
    → Dict.lookup q (save_at (some path) content now fs).1 ≡ Dict.lookup q fs
unfolding save_at
save_at-outside path q content now fs h = elim (Option-cases (parent path)) [
  | inl top ↦ ground (arith, top)
  | inr (above, below) ↦ elim (Option-cases (create_dir_all fs above)) [
    | inl failed ↦ ground (arith, below, failed, write_file-outside path q content now fs h)
    | inr (made, done) ↦ ground (
      arith,
      below,
      done,
      write_file-outside path q content now fs h,
      write_file-outside path q content now made h,
      create_dir_all-outside fs made above q done
          (not_above-part path q above (parent-above path above below) h),
    )
  ]
]

pub finish_upload-outside :
    (a : Site) (d : Text) (v : ℕ) (q : FilePath)
    → (q == marker_path a.storage d v) ≡ false
    → Dict.lookup q (finish_upload a d v).1.fs ≡ Dict.lookup q a.fs
unfolding finish_upload
finish_upload-outside a d v q h =
    elim (Option-cases (remove_file a.fs (marker_path a.storage d v))) [
      | inl failed ↦ ground (arith, failed)
      | inr (fs, done) ↦
          ground (arith, done, h, remove_file-outside a.fs fs (marker_path a.storage d v) q done)
    ]

pub begin_upload-outside :
    (a : Site) (d : Text) (v now : ℕ) (q : FilePath)
    → is_under q (marker_path a.storage d v) ≡ false
    → Dict.lookup q (begin_upload a d v now).1.fs ≡ Dict.lookup q a.fs
unfolding begin_upload
begin_upload-outside a d v now q h =
    elim (Option-cases (create_dir_all a.fs (get_version_path a.storage d v))) [
      | inl failed ↦ ground (arith, failed)
      | inr (made, done) ↦
          let same : Dict.lookup q made ≡ Dict.lookup q a.fs =
            create_dir_all-outside a.fs made (get_version_path a.storage d v) q done (
              not_above-part (marker_path a.storage d v) q (get_version_path a.storage d v)
                (marker_path-under a.storage d v) h) in
          elim (Option-cases (create made (marker_path a.storage d v) now)) [
            | inl failed ↦ ground (arith, done, failed, same)
            | inr (fs, created) ↦ ground (
              arith,
              done,
              created,
              same,
              create-outside made fs (marker_path a.storage d v) q now created
                  (apart_of_not_above (marker_path a.storage d v) q h),
            )
          ]
    ]

pub update_uploading_status-outside :
    (a : Site) (d : Text) (v : ℕ) (status : UploadingStatus) (now : ℕ) (q : FilePath)
    → is_under q (marker_path a.storage d v) ≡ false
    → Dict.lookup q (update_uploading_status a d v status now).1.fs ≡ Dict.lookup q a.fs
unfolding update_uploading_status
update_uploading_status-outside a d v status now q h = ground (
  arith,
  finish_upload-outside a d v q (apart_of_not_above (marker_path a.storage d v) q h),
  begin_upload-outside a d v now q h,
)

pub remove_path-outside :
    (a : Site) (p q : FilePath)
    → is_under p q ≡ false
    → Dict.lookup q (remove_path a p).1.fs ≡ Dict.lookup q a.fs
unfolding remove_path
remove_path-outside a p q apart = ground (arith, lookup-prune p q a.fs)

-- A removal makes nothing.
pub remove_path-lookup :
    (a : Site) (p q : FilePath) (n : Node)
    → Dict.lookup q (remove_path a p).1.fs ≡ some n
    → Dict.lookup q a.fs ≡ some n
unfolding remove_path
remove_path-lookup a p q n h = ground (arith, lookup-prune p q a.fs)

-- What `warp::fs::sanitize_path` gives lies below the base.
pub record IsSanitizer (crates : Crates) : Type 0 where
  pub below :
      (base path : FilePath) (key : Text)
      → crates.sanitize_path base key ≡ some path
      → is_under base path ≡ true

module _ (crates : Crates) (clean : IsSanitizer crates) where
  pub save_file-outside :
      (a : Site) (d : Text) (v : ℕ) (key content : Text) (now : ℕ) (q : FilePath)
      → ((p : FilePath) → is_under (get_version_path a.storage d v) p ≡ true → is_under q p ≡ false)
      → Dict.lookup q (save_file crates a d v key content now).1.fs ≡ Dict.lookup q a.fs
  unfolding save_file
  save_file-outside a d v key content now q k =
      elim (Option-cases (crates.sanitize_path (get_version_path a.storage d v) key)) [
        | inl refused ↦ ground (arith, refused)
        | inr (path, names) ↦ ground (
          arith,
          names,
          save_at-outside path q content now a.fs
              (k path (clean.below (get_version_path a.storage d v) path key names)),
        )
      ]
