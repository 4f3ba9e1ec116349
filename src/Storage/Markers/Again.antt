-- ===== src/Storage/Markers/Again.antt =====
-- server/src/domain_storage.rs: what `DomainStorage::init` finds of the uploads that were on.
use mathlib.Core.List.{append_assoc}
use spa_server.Base.{
  ℕ, ◌≡◌, ◌≢◌, refl, ◌∙◌, sym, ap, true, false, inl, inr, Option, none, some, List, [], ◌∷◌, ◌++◌,
  arith,
}
use spa_server.Base.{
  ◌==◌, if◌then◌else◌, map_some, Bool-cases, Option-cases, nat_eq, list_eq, option_eq, eq_of_==,
  ◌&&◌, ==-refl, All, contains,
}
use spa_server.Base.Dict
use spa_server.Base.Text.{Text}
use spa_server.Base.Text.Decimal.{to_string, parse_u32-to_string}
use spa_server.FilePath.{FilePath, join, file_name}
use spa_server.FilePath.Names.{join_of_IsName, file_name-snoc}
use spa_server.FileSystem.{FileSystem, exists, read_dir}
use spa_server.FileSystem.Entries.{read_dir_children, contains-read_dir, exists_of_read_dir}
use spa_server.FileCache.{FileCache}
use spa_server.Crates.{Crates}
use spa_server.Storage.{DomainStorage, Site, uploading_file_name, version_of, ok}
use spa_server.Storage.Paths.{uploading_file_name-IsName}
use spa_server.Storage.Init.{init}
use spa_server.Storage.Isolation.{root}
use spa_server.Storage.Reachable.{Reach, Each}
use spa_server.Storage.Frames.{IsSanitizer}
use spa_server.Storage.Markers.{IsMarked, marker_at}
use spa_server.Storage.Markers.Steps.{IsRequest, Reach-IsMarked}
use spa_server.Storage.Restart.{marked_versions, last}
use spa_server.Storage.Restart.Starts.{init_restart}

-- The directory of a version.
abbrev dir_at : FilePath → Text → ℕ → FilePath
dir_at prefix d v = (prefix ++ d ∷ []) ++ to_string v ∷ []

module _ (a : Site) (d : Text) (h : IsMarked a) where
  Children : List FilePath → Type 0
  Children ps = All (λ (q : FilePath). root a.storage d ++ file_name q ∷ [] ≡ q) ps

  marker_join :
      (p : FilePath)
      → root a.storage d ++ file_name p ∷ [] ≡ p
      → join p uploading_file_name ≡ marker_at a.storage.prefix d (file_name p)
  marker_join p child =
      join_of_IsName p uploading_file_name uploading_file_name-IsName
      ∙ ap (λ (q : FilePath). q ++ uploading_file_name ∷ []) (sym child)
      ∙ append_assoc (root a.storage d) (file_name p ∷ []) (uploading_file_name ∷ [])

  -- A marker below the domain's directory marks the upload that is on.
  entry_marked :
      (p : FilePath)
      → root a.storage d ++ file_name p ∷ [] ≡ p
      → exists a.fs (join p uploading_file_name) ≡ true
      → map_some to_string (Dict.lookup d a.storage.uploading_status) ≡ some (file_name p)
  entry_marked p child there = h.marked d (file_name p) (rw (← marker_join p child) there)

  last_marked-none :
      (ps : List FilePath)
      → Children ps
      → Dict.lookup d a.storage.uploading_status ≡ none
      → last (marked_versions a.fs ps) ≡ none
  unfolding marked_versions Children
  last_marked-none [] children off = refl
  last_marked-none (p ∷ ps) (child, children) off =
      elim (Bool-cases (exists a.fs (join p uploading_file_name))) [
        | inl there ↦ ground (arith, off, entry_marked p child there)
        | inr missing ↦ ground (arith, missing, last_marked-none ps children off)
      ]

  last_marked-some :
      (ps : List FilePath) (v : ℕ)
      → Children ps
      → Dict.lookup d a.storage.uploading_status ≡ some v
      → last (marked_versions a.fs ps) ≡ (
          if contains ps (dir_at a.storage.prefix d v)
            && exists a.fs (marker_at a.storage.prefix d (to_string v))
          then some v
          else none)
  unfolding marked_versions Children
  last_marked-some [] v children on = refl
  last_marked-some (p ∷ ps) v (child, children) on =
      let whole : FilePath = dir_at a.storage.prefix d v in
      let rest = last_marked-some ps v children on in
      elim (Bool-cases (exists a.fs (join p uploading_file_name))) [
        | inl there ↦
            let name : file_name p ≡ to_string v = ground (arith, on, entry_marked p child there) in
            let version : version_of p ≡ some v = rw name (parse_u32-to_string v (h.fits d v on)) in
            let same : whole ≡ p = rw (← name) child in
            let mark : exists a.fs (marker_at a.storage.prefix d (to_string v)) ≡ true =
              rw (← name, ← marker_join p child) there in
            ground (arith, there, version, same, ==-refl p, mark, rest)
        | inr missing ↦ elim (Bool-cases (whole == p)) [
          | inr other ↦ ground (arith, missing, other, rest)
          | inl same ↦
              let name : to_string v ≡ file_name p =
                sym (file_name-snoc (root a.storage d) (to_string v))
                ∙ ap file_name (eq_of_== whole p same) in
              let mark : exists a.fs (marker_at a.storage.prefix d (to_string v)) ≡ false =
                rw (name, ← marker_join p child) missing in
              ground (arith, missing, same, mark, rest)
        ]
      ]

-- The upload of a domain, where its version's directory and marker are on disk.
abbrev pub upload_on_disk : Site → Text → Option ℕ
upload_on_disk a d = elim (Dict.lookup d a.storage.uploading_status) [
  | none ↦ none
  | some v ↦
      if exists a.fs (dir_at a.storage.prefix d v)
        && exists a.fs (marker_at a.storage.prefix d (to_string v))
      then some v
      else none
]

snoc_not_empty : (p : FilePath) (c : Text) → p ++ c ∷ [] ≢ []
snoc_not_empty [] c e = cc
snoc_not_empty (b ∷ p) c e = cc

-- A directory's entries are listed exactly if they are there.
contains_paths :
    (fs : FileSystem) (p : FilePath) (c : Text) (paths : List FilePath)
    → read_dir fs p ≡ some paths
    → p ≢ []
    → contains paths (p ++ c ∷ []) ≡ exists fs (p ++ c ∷ [])
contains_paths fs p c paths listed named = elim (Bool-cases (contains paths (p ++ c ∷ []))) [
  | inl found ↦ ground (arith, found, exists_of_read_dir fs p (p ++ c ∷ []) paths listed found)
  | inr missing ↦ ground (arith, missing, contains-read_dir fs p c paths listed named)
]

last_marked :
    (a : Site) (d : Text) (paths : List FilePath)
    → IsMarked a
    → root a.storage d ≢ []
    → read_dir a.fs (root a.storage d) ≡ some paths
    → last (marked_versions a.fs paths) ≡ upload_on_disk a d
unfolding Children
last_marked a d paths h named listed =
    let children = read_dir_children a.fs (root a.storage d) paths listed in
    elim (Option-cases (Dict.lookup d a.storage.uploading_status)) [
      | inl off ↦ rw (off, upload_on_disk) (last_marked-none a d h paths children off)
      | inr (v, on) ↦
          rw
            (
              on,
              upload_on_disk,
              ← contains_paths a.fs (root a.storage d) (to_string v) paths listed named,
            )
            (last_marked-some a d h paths v children on)
    ]

module _ (crates : Crates) where
  -- The storage stops after any requests, each for a domain whose name is one component of a path and
  -- not ".." and for a version that is a `u32`, where at first each marker file on disk is that of
  -- the version that its domain uploads, and starts again on the disk that they leave, in the same
  -- directory, whose path is not empty. Then, for a domain whose name is accepted as one and that has
  -- a directory, the upload that is on is the one that was on, if its version's directory and marker
  -- are still on disk, and none otherwise. It is given that `sanitize_path` yields paths below its
  -- base.
  pub init_again :
      (clean : IsSanitizer crates) (a b : Site) (r : Reach crates a b) (cache : FileCache)
      (s : DomainStorage) (d : Text) (paths : List FilePath)
      → Each crates (IsRequest crates) r
      → IsMarked a
      → b.storage.prefix ≢ []
      → crates.is_uri d ≡ true
      → read_dir b.fs (b.storage.prefix ++ d ∷ []) ≡ some paths
      → init crates b.storage.prefix cache b.fs ≡ ok s
      → Dict.lookup d s.uploading_status ≡ upload_on_disk b d
  init_again clean a b r cache s d paths typed h named uri listed start =
      let k : IsMarked b = Reach-IsMarked crates clean a b r typed h in
      let (found, served) =
        init_restart crates b.storage.prefix cache b.fs s d paths named uri listed start in
      found ∙ last_marked b d paths k (snoc_not_empty b.storage.prefix d) listed
