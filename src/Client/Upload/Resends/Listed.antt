-- ===== src/Client/Upload/Resends/Listed.antt =====
-- server/src/domain_storage.rs: the keys that `get_files_metadata` lists.
use mathlib.Core.List.{append_assoc, append-nil}
use spa_server.Base.{
  ℕ, ◌≡◌, refl, sym, ◌∙◌, subst, true, false, Option, none, some, List, [], ◌∷◌, ◌++◌, arith,
  nat_eq, list_eq, inl, inr,
}
use spa_server.Base.{Eq, All, filter_map, contains, Option-cases, ==-refl}
use spa_server.Base.Text.{Text, starts_with, replace, replace_from}
use spa_server.FilePath.{FilePath, slash, to_str}
use spa_server.FileSystem.{File, FileSystem, read, exists, is_dir}
use spa_server.FileSystem.Entries.{exists_of_is_dir}
use spa_server.FileSystem.WalkDir.{Walk, IsWalk}
use spa_server.Crates.{Crates}
use spa_server.Storage.{
  ShortMetaData, DomainStorage, get_files_metadata, short_metadata, get_version_path,
}
use spa_server.Client.Upload.{uploading_entry, by_path}
use spa_server.Client.Upload.Resends.{Relative, uploading_entry-Relative}
use spa_server.Base.Text.Replace.{replace-append}
use spa_server.FilePath.Slashes.{
  behind_slashes, behind_slashes-append, to_str-root, append_not_empty, IsFileName, NoRoot-of_names,
  split_under, All-back, All-front, tail_of,
}
use spa_server.FileSystem.Disk.{IsDisk}

-- The first letter is no slash, so no match begins there.
replace-relative :
    (name rest p : Text)
    → IsFileName name
    → starts_with (replace (name ++ rest) (b'/' ∷ p) []) slash ≡ false
unfolding replace replace_from starts_with
replace-relative [] rest p (full, plain) = absurd (full refl)
replace-relative (c ∷ name) rest p (full, plain) = ground (arith, plain.0)

key-relative :
    (a : Text) (names : List Text) (name : Text) (below : List Text)
    → All IsFileName ((a ∷ names) ++ name ∷ below)
    → starts_with
        (replace
          (to_str (slash ∷ (a ∷ names) ++ name ∷ below))
          (to_str (slash ∷ a ∷ names) ++ slash)
          [])
        slash
      ≡ false
key-relative a names name below h =
    let p : List Text = a ∷ names in
    let front : Text = behind_slashes p ++ slash in
    let whole : to_str (slash ∷ p ++ name ∷ below) ≡ front ++ (name ++ behind_slashes below) =
      to_str-root (p ++ name ∷ below) (append_not_empty p (name ∷ below) (λ e. cc))
        (NoRoot-of_names (p ++ name ∷ below) h)
      ∙ behind_slashes-append p (name ∷ below)
      ∙ sym (append_assoc (behind_slashes p) slash (name ++ behind_slashes below)) in
    let root : to_str (slash ∷ p) ≡ behind_slashes p =
      to_str-root p (λ e. cc) (NoRoot-of_names p (All-front p (name ∷ below) h)) in
    rw (whole, root, replace-append front (name ++ behind_slashes below) [] (λ e. cc))
      (replace-relative name (behind_slashes below) (a ++ behind_slashes names ++ slash)
        ((All-back p (name ∷ below) h).0))

All-of_filter_map {ℓ κ ι} :
    {A : Type ℓ} {B : Type κ} ⦃e : Eq A⦄ (P : B → Type ι) (f : A → Option B) (xs : List A)
    → ((x : A) (y : B) → contains xs x ≡ true → f x ≡ some y → P y)
    → All P (filter_map f xs)
All-of_filter_map P f [] h = tt
All-of_filter_map P f (x ∷ xs) h =
    let rest : All P (filter_map f xs) =
      All-of_filter_map P f xs (λ z y m. h z y (ground (arith, m))) in
    elim (Option-cases (f x)) [
      | inl skipped ↦ rw skipped rest
      | inr (y, kept) ↦ rw kept (h x y (ground (arith, ==-refl x)) kept, rest)
    ]

short_metadata-path :
    (crates : Crates) (fs : FileSystem) (prefix : Text) (q : FilePath) (x : ShortMetaData)
    → short_metadata crates fs prefix q ≡ some x
    → (is_dir fs q ≡ false) × (x.path ≡ replace (to_str q) prefix [])
unfolding short_metadata is_dir read
short_metadata-path crates fs prefix q x h = (ground arith, ground arith)

below_relative :
    (fs : FileSystem) (a : Text) (names : List Text) (q r : FilePath)
    → IsDisk fs
    → is_dir fs (slash ∷ a ∷ names) ≡ true
    → exists fs q ≡ true
    → is_dir fs q ≡ false
    → q ≡ (slash ∷ a ∷ names) ++ r
    → starts_with (replace (to_str q) (to_str (slash ∷ a ∷ names) ++ slash) []) slash ≡ false
below_relative fs a names q [] disk there known plain e =
    let same : q ≡ slash ∷ a ∷ names = e ∙ append-nil (slash ∷ a ∷ names) in
    absurd (ground (arith, there, plain, same))
below_relative fs a names q (name ∷ below) disk there known plain e =
    let (t, at, all) = disk.names q known in
    let same : t ≡ (a ∷ names) ++ name ∷ below = tail_of slash t _ (sym at ∙ e) in
    rw e (key-relative a names name below (subst (All IsFileName) same all))

module _ (crates : Crates) (walks : IsWalk crates.walk) where
  entry_relative :
      (fs : FileSystem) (a : Text) (names : List Text) (q : FilePath) (x : ShortMetaData)
      → IsDisk fs
      → is_dir fs (slash ∷ a ∷ names) ≡ true
      → contains (crates.walk fs (slash ∷ a ∷ names) none) q ≡ true
      → short_metadata crates fs (to_str (slash ∷ a ∷ names) ++ slash) q ≡ some x
      → starts_with x.path slash ≡ false
  entry_relative fs a names q x disk there walked h =
      let root : FilePath = slash ∷ a ∷ names in
      let (plain, key) = short_metadata-path crates fs (to_str root ++ slash) q x h in
      let found = walks.contains-walk fs root q none in
      let (r, e) = split_under root q (ground (arith, walked, found)) in
      rw key (below_relative fs a names q r disk there (ground (arith, walked, found)) plain e)

  get_files_metadata-Relative :
      (s : DomainStorage) (fs : FileSystem) (d : Text) (v : ℕ) (a : Text) (names : List Text)
      → get_version_path s d v ≡ slash ∷ a ∷ names
      → is_dir fs (slash ∷ a ∷ names) ≡ true
      → IsDisk fs
      → Relative (get_files_metadata crates s fs d v)
  unfolding get_files_metadata
  get_files_metadata-Relative s fs d v a names at there disk =
      let root : FilePath = slash ∷ a ∷ names in
      rw (get_files_metadata, at, exists_of_is_dir fs root there)
        (All-of_filter_map (λ (x : ShortMetaData). starts_with x.path slash ≡ false) _
          (crates.walk fs root none)
          (λ q x walked h. entry_relative fs a names q x disk there walked h))

  -- The client uploads to a version that has a directory on the server's disk, whose paths are
  -- absolute and made of names. A file of the client whose key begins with a slash is among those to
  -- be sent, whatever the server has: its key is not one of those that the server lists.
  pub uploading_entry-resends :
      (s : DomainStorage) (fs : FileSystem) (d : Text) (v : ℕ) (a : Text) (names : List Text)
      (walk : Walk) (md5 : Text → Text) (local : FileSystem) (prefix_path : Text) (path : FilePath)
      (f : File)
      → get_version_path s d v ≡ slash ∷ a ∷ names
      → is_dir fs (slash ∷ a ∷ names) ≡ true
      → IsDisk fs
      → read local path ≡ some f
      → starts_with (replace (to_str path) prefix_path []) slash ≡ true
      → uploading_entry walk md5 local prefix_path
          (by_path (get_files_metadata crates s fs d v))
          path
        ≡ some (replace (to_str path) prefix_path [], path)
  uploading_entry-resends s fs d v a names walk md5 local prefix_path path f at there disk known
        key =
      uploading_entry-Relative walk md5 local prefix_path (get_files_metadata crates s fs d v) path
        f (get_files_metadata-Relative s fs d v a names at there disk) known key
