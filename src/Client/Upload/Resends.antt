-- ===== src/Client/Upload/Resends.antt =====
-- client/src/upload_files.rs and server/src/domain_storage.rs: the keys that the client looks up among
-- those that the server lists.
pub mod Listed
use spa_server.Base.{
  ℕ, ◌≡◌, ◌≢◌, refl, ap, sym, ◌∙◌, subst, Bool, true, false, Option, none, some, List, [], ◌∷◌,
  ◌++◌, arith, nat_eq, list_eq, inl, inr,
}
use spa_server.Base.{◌==◌, All, map, Option-cases, Bool-cases, eq_of_==}
use spa_server.Base.Dict
use spa_server.Base.Dict.{Dict}
use spa_server.Base.Text.{Text, starts_with, replace}
use spa_server.FilePath.{FilePath, slash, to_str}
use spa_server.FileSystem.{File, FileSystem, read}
use spa_server.FileSystem.WalkDir.{Walk}
use spa_server.Crates.{Crates}
use spa_server.Storage.{ShortMetaData, Site, get_files_metadata}
use spa_server.Client.Upload.{uploading_entry, is_same, by_path}

-- No key of the list begins with a slash.
abbrev pub Relative : List ShortMetaData → Type 0
Relative items = All (λ (x : ShortMetaData). starts_with x.path slash ≡ false) items

lookup-collect :
    (items : List ShortMetaData) (d : Dict Text ShortMetaData) (key : Text)
    → Relative items
    → starts_with key slash ≡ true
    → Dict.lookup key (Dict.collect (map (λ x. (x.path, x)) items) d) ≡ Dict.lookup key d
unfolding Dict.collect
lookup-collect [] d key h k = refl
lookup-collect (x ∷ items) d key (h, hs) k = elim (Bool-cases (key == x.path)) [
  | inl same ↦ absurd (ground (arith, h, k, eq_of_== key x.path same))
  | inr other ↦
      lookup-collect items (Dict.insert x.path x d) key hs k
      ∙ ground (arith, other, Dict.lookup-insert key x.path x d)
]

lookup-by_path :
    (items : List ShortMetaData) (key : Text)
    → Relative items
    → starts_with key slash ≡ true
    → Dict.lookup key (by_path items) ≡ none
unfolding by_path
lookup-by_path items key h k = lookup-collect items [] key h k ∙ Dict.lookup-nil key

pub uploading_entry-Relative :
    (walk : Walk) (md5 : Text → Text) (fs : FileSystem) (prefix_path : Text)
    (items : List ShortMetaData) (path : FilePath) (f : File)
    → Relative items
    → read fs path ≡ some f
    → starts_with (replace (to_str path) prefix_path []) slash ≡ true
    → uploading_entry walk md5 fs prefix_path (by_path items) path
      ≡ some (replace (to_str path) prefix_path [], path)
unfolding uploading_entry
uploading_entry-Relative walk md5 fs prefix_path items path f h there k =
    rw (there, uploading_entry, lookup-by_path items (replace (to_str path) prefix_path []) h k)
