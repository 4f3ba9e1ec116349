-- ===== src/Client/Upload/Keys.antt =====
-- client/src/upload_files.rs: the keys of the files of a directory.
use spa_server.Base.{
  ◌≡◌, ◌≢◌, refl, ap, sym, ◌∙◌, some, List, [], ◌∷◌, ◌++◌, arith, nat_eq, list_eq,
}
use spa_server.Base.{Option-cases, Bool-cases, inl, inr}
use spa_server.Base.Dict
use spa_server.Base.Dict.{Dict}
use spa_server.Base.Text.{Text, replace}
use spa_server.FilePath.{FilePath, slash, to_str}
use spa_server.FileSystem.{FileSystem, read}
use spa_server.FileSystem.WalkDir.{Walk}
use spa_server.Storage.{ShortMetaData}
use spa_server.Client.Upload.{uploading_entry, is_same}
use spa_server.Base.Text.Replace.{replace-append}
use spa_server.FilePath.Slashes.{
  behind_slashes, behind_slashes-append, NoRoot, to_str-root, NoRoot-append, append_not_empty,
}

behind_slashes_not_empty : (names : List Text) → names ≢ [] → behind_slashes names ≢ []
behind_slashes_not_empty [] h = absurd (h refl)
behind_slashes_not_empty (name ∷ names) h = λ e. cc

-- What is left of a path below the directory, once the first match is gone.
replace-below :
    (names below : List Text)
    → names ≢ []
    → NoRoot names
    → NoRoot below
    → replace (to_str (slash ∷ names ++ below)) (to_str (slash ∷ names)) []
      ≡ replace (behind_slashes below) (behind_slashes names) []
replace-below names below named roots below_roots =
    rw
      (
        to_str-root (names ++ below) (append_not_empty names below named)
            (NoRoot-append names below roots below_roots),
        to_str-root names named roots,
        behind_slashes-append names below,
      )
      (replace-append (behind_slashes names) (behind_slashes below) []
        (behind_slashes_not_empty names named))

module _ (walk : Walk) (md5 : Text → Text) (fs : FileSystem) where
  uploading_entry-key :
      (prefix_path : Text) (listed : Dict Text ShortMetaData) (path q : FilePath) (key : Text)
      → uploading_entry walk md5 fs prefix_path listed path ≡ some (key, q)
      → key ≡ replace (to_str path) prefix_path []
  unfolding uploading_entry
  uploading_entry-key prefix_path listed path q key h = elim (Option-cases (read fs path)) [
    | inl no_file ↦ ground (arith, no_file)
    | inr (f, there) ↦
        elim (Bool-cases
          (is_same md5 (Dict.lookup (replace (to_str path) prefix_path []) listed) f)) [
            | inl known ↦ ground (arith, there, known)
            | inr new ↦ ground (arith, there, new)
          ]
  ]

  -- Two files below an absolute directory, of which the second has the names of the directory once
  -- more between the directory's path and what the first one has behind it: if both are to be sent,
  -- they are sent under one key.
  pub uploading_entry_collide :
      (listed : Dict Text ShortMetaData) (names below : List Text) (p q : FilePath) (j k : Text)
      → names ≢ []
      → NoRoot names
      → NoRoot below
      → uploading_entry walk md5 fs (to_str (slash ∷ names)) listed (slash ∷ names ++ below)
        ≡ some (j, p)
      → uploading_entry walk md5 fs
          (to_str (slash ∷ names))
          listed
          (slash ∷ names ++ (names ++ below))
        ≡ some (k, q)
      → j ≡ k
  uploading_entry_collide listed names below p q j k named roots below_roots first second =
      uploading_entry-key _ listed (slash ∷ names ++ below) p j first
      ∙ replace-below names below named roots below_roots
      ∙ sym (
          replace-append (behind_slashes names) (behind_slashes below) []
            (behind_slashes_not_empty names named))
      ∙ ap (λ (t : Text). replace t (behind_slashes names) [])
          (sym (behind_slashes-append names below))
      ∙ sym (
          replace-below names (names ++ below) named roots
            (NoRoot-append names below roots below_roots))
      ∙ sym (uploading_entry-key _ listed (slash ∷ names ++ (names ++ below)) q k second)
