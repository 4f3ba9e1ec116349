-- ===== src/Storage/Files.antt =====
-- server/src/domain_storage.rs: what uploads leave on disk.
use spa_server.Base.{
  ℕ, ◌≡◌, ◌≢◌, true, inl, inr, Option, none, some, [], arith, nat_eq, list_eq, option_eq,
}
use spa_server.Base.{if◌then◌else◌, is_some, Bool-cases, Option-cases}
use spa_server.Base.Dict
use spa_server.Base.Text.{Text}
use spa_server.FilePath.{FilePath, parent}
use spa_server.FileSystem.{
  File, Node, dir, file, FileSystem, exists, read, create, create_dir_all, remove_file,
}
use spa_server.FileSystem.Laws.{create_dir_all-keeps}
use spa_server.Crates.{Crates}
use spa_server.Storage.{
  not_uploading, ok, err, check_is_in_upload_process, Site, UploadingStatus, io_error,
  get_version_path, marker_path,
}
use spa_server.Storage.Upload.{
  save_file, save_at, write_file, write_opened, write_created, update_uploading_status,
  begin_upload, finish_upload,
}

pub lookup-of_read :
    (fs : FileSystem) (p : FilePath) (f : File)
    → read fs p ≡ some f
    → Dict.lookup p fs ≡ some (file f)
unfolding read
lookup-of_read fs p f h = elim (Option-cases (Dict.lookup p fs)) [
  | inl missing ↦ ground (arith, missing)
  | inr (n, there) ↦ go n there
]
  where
    go : (n : Node) → Dict.lookup p fs ≡ some n → Dict.lookup p fs ≡ some (file f)
    go dir there = ground (arith, there)
    go (file g) there = ground (arith, there)

pub read-of_lookup :
    (fs : FileSystem) (p : FilePath) (f : File)
    → Dict.lookup p fs ≡ some (file f)
    → read fs p ≡ some f
unfolding read
read-of_lookup fs p f h = rw (h, read)

abbrev made : FilePath → ℕ → FileSystem → FileSystem
made path now fs = Dict.insert path (file (record { content = []; modified = now })) fs

-- What is there stays there.
write_file-keeps :
    (path p : FilePath) (content : Text) (now : ℕ) (fs : FileSystem) (n : Node)
    → Dict.lookup p fs ≡ some n
    → Dict.lookup p (write_file path content now fs).1 ≡ some n
unfolding write_file
write_file-keeps path p content now fs n h = ground (
  arith,
  Dict.lookup-insert p path (file (record { content = []; modified = now })) fs,
  Dict.lookup-insert p path (file (record { content = content; modified = now }))
      (made path now fs),
)

save_at-keeps :
    (to : Option FilePath) (p : FilePath) (content : Text) (now : ℕ) (fs : FileSystem) (n : Node)
    → Dict.lookup p fs ≡ some n
    → Dict.lookup p (save_at to content now fs).1 ≡ some n
unfolding save_at
save_at-keeps none p content now fs n h = h
save_at-keeps (some path) p content now fs n h = elim (Option-cases (parent path)) [
  | inl top ↦ rw (top, save_at) h
  | inr (above, below) ↦ elim (Bool-cases (exists fs above)) [
    | inl there ↦ rw (below, there, save_at) (write_file-keeps path p content now fs n h)
    | inr missing ↦ elim (Option-cases (create_dir_all fs above)) [
      | inl failed ↦ rw (below, missing, failed, save_at) h
      | inr (fs', done) ↦
          rw (below, missing, done, save_at)
            (write_file-keeps path p content now fs' n
              (create_dir_all-keeps fs fs' above p n done h))
    ]
  ]
]

-- Bytes that a transfer writes are there, and were not there before.
write_file-stores :
    (path : FilePath) (content : Text) (now : ℕ) (fs : FileSystem)
    → content ≢ []
    → (write_file path content now fs).0 ≡ ok tt
    → read (write_file path content now fs).1 path
      ≡ some (record { content = content; modified = now })
unfolding write_file write_opened write_created create read
write_file-stores path content now fs full done = ground (
  arith,
  Dict.lookup-insert path path (file (record { content = content; modified = now }))
      (made path now fs),
)

save_at-stores :
    (path : FilePath) (content : Text) (now : ℕ) (fs : FileSystem)
    → content ≢ []
    → (save_at (some path) content now fs).0 ≡ ok tt
    → read (save_at (some path) content now fs).1 path
      ≡ some (record { content = content; modified = now })
unfolding save_at
save_at-stores path content now fs full done = elim (Option-cases (parent path)) [
  | inl top ↦ ground (arith, top)
  | inr (above, below) ↦ elim (Bool-cases (exists fs above)) [
    | inl there ↦
        rw (below, there, save_at)
          (write_file-stores path content now fs full (ground (arith, below, there)))
    | inr missing ↦ elim (Option-cases (create_dir_all fs above)) [
      | inl failed ↦ ground (arith, below, missing, failed)
      | inr (fs', made) ↦
          rw (below, missing, made, save_at)
            (write_file-stores path content now fs' full (ground (arith, below, missing, made)))
    ]
  ]
]

-- Where a file is, a transfer that has something to write fails and changes nothing.
save_at-existing :
    (path above : FilePath) (content : Text) (now : ℕ) (fs : FileSystem)
    → parent path ≡ some above
    → exists fs above ≡ true
    → exists fs path ≡ true
    → content ≢ []
    → save_at (some path) content now fs ≡ (err io_error, fs)
unfolding save_at write_file write_opened
save_at-existing path above content now fs below there known full =
    ground (arith, below, there, known)

module _ (crates : Crates) where
  pub save_file-keeps :
      (site : Site) (d : Text) (v : ℕ) (key content : Text) (now : ℕ) (p : FilePath) (n : Node)
      → Dict.lookup p site.fs ≡ some n
      → Dict.lookup p (save_file crates site d v key content now).1.fs ≡ some n
  unfolding save_file
  save_file-keeps site d v key content now p n h = ground (
    arith,
    save_at-keeps (crates.sanitize_path (get_version_path site.storage d v) key) p content now
        site.fs n h,
  )

  pub save_file-stores :
      (site : Site) (d : Text) (v : ℕ) (key content : Text) (now : ℕ) (path : FilePath)
      → crates.sanitize_path (get_version_path site.storage d v) key ≡ some path
      → content ≢ []
      → (save_file crates site d v key content now).0 ≡ ok tt
      → read (save_file crates site d v key content now).1.fs path
        ≡ some (record { content = content; modified = now })
  unfolding save_file
  save_file-stores site d v key content now path names full done =
      elim (Bool-cases (check_is_in_upload_process site.storage d v)) [
        | inl here ↦
            rw (here, names, save_file)
              (save_at-stores path content now site.fs full (ground (arith, here, names)))
        | inr other ↦ ground (arith, other)
      ]

  pub save_file-path :
      (site : Site) (d : Text) (v : ℕ) (key content : Text) (now : ℕ)
      → content ≢ []
      → (save_file crates site d v key content now).0 ≡ ok tt
      → is_some (crates.sanitize_path (get_version_path site.storage d v) key) ≡ true
  unfolding save_file save_at
  save_file-path site d v key content now full done = ground arith

  pub save_file-storage :
      (site : Site) (d : Text) (v : ℕ) (key content : Text) (now : ℕ)
      → (save_file crates site d v key content now).1.storage ≡ site.storage
  unfolding save_file
  save_file-storage site d v key content now = ground arith

-- The marker apart, a change of the status touches no file.
finish_upload-keeps :
    (site : Site) (d : Text) (v : ℕ) (p : FilePath) (n : Node)
    → marker_path site.storage d v ≢ p
    → Dict.lookup p site.fs ≡ some n
    → Dict.lookup p (finish_upload site d v).1.fs ≡ some n
unfolding finish_upload remove_file
finish_upload-keeps site d v p n other h =
    ground (arith, other, Dict.lookup-erase p (marker_path site.storage d v) site.fs)

begin_upload-keeps :
    (site : Site) (d : Text) (v now : ℕ) (p : FilePath) (n : Node)
    → marker_path site.storage d v ≢ p
    → Dict.lookup p site.fs ≡ some n
    → Dict.lookup p (begin_upload site d v now).1.fs ≡ some n
unfolding begin_upload create
begin_upload-keeps site d v now p n other h =
    elim (Option-cases (create_dir_all site.fs (get_version_path site.storage d v))) [
      | inl failed ↦ ground (arith, failed)
      | inr (made, done) ↦ ground (
        arith,
        done,
        create_dir_all-keeps site.fs made (get_version_path site.storage d v) p n done h,
        Dict.lookup-insert p (marker_path site.storage d v)
            (file (record { content = []; modified = now })) made,
      )
    ]

pub update_uploading_status-keeps :
    (site : Site) (d : Text) (v : ℕ) (status : UploadingStatus) (now : ℕ) (p : FilePath) (n : Node)
    → marker_path site.storage d v ≢ p
    → Dict.lookup p site.fs ≡ some n
    → Dict.lookup p (update_uploading_status site d v status now).1.fs ≡ some n
unfolding update_uploading_status
update_uploading_status-keeps site d v status now p n other h =
    ground
      (arith, finish_upload-keeps site d v p n other h, begin_upload-keeps site d v now p n other h)

pub update_uploading_status-prefix :
    (site : Site) (d : Text) (v : ℕ) (status : UploadingStatus) (now : ℕ)
    → (update_uploading_status site d v status now).1.storage.prefix ≡ site.storage.prefix
unfolding update_uploading_status finish_upload begin_upload
update_uploading_status-prefix site d v status now = ground arith

-- Where the version already has something at the path, a transfer that is not empty fails, during
-- the version's upload too, and the site is left as it was.
pub save_file-existing :
    (crates : Crates) (site : Site) (d : Text) (v : ℕ) (key content : Text) (now : ℕ)
    (path above : FilePath)
    → crates.sanitize_path (get_version_path site.storage d v) key ≡ some path
    → parent path ≡ some above
    → exists site.fs above ≡ true
    → exists site.fs path ≡ true
    → content ≢ []
    → save_file crates site d v key content now ≡ (
      if check_is_in_upload_process site.storage d v then err io_error else err not_uploading,
      site,
    )
unfolding save_file
save_file-existing crates site d v key content now path above names below there known full =
    ground (arith, names, save_at-existing path above content now site.fs below there known full)
