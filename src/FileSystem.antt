-- ===== src/FileSystem.antt =====
-- The calls of `std::fs` that the program makes, over an explicit file system. A call fails for the
-- reasons that lie in the tree itself; permissions, full disks and symbolic links are left out.
pub mod Laws
pub mod Disk
pub mod Entries
pub mod Frames
pub mod WalkDir
use spa_server.Base.{
  ℕ, Bool, true, false, not, Option, none, some, List, [], ◌∷◌, ◌++◌, nat_eq, list_eq, option_eq,
}
use spa_server.Base.{◌==◌, if◌then◌else◌, length, is_some, filter, map_some}
use spa_server.Base.Dict
use spa_server.Base.Dict.{Dict}
use spa_server.Base.Text.{Text}
use spa_server.FilePath.{FilePath, slash, parent, is_under, file_name, depth_below}

-- A file's bytes and its time of modification, in seconds.
pub record File : Type 0 where
  pub content : Text
  pub modified : ℕ

pub data Node : Type 0 where
  dir : Node
  file : File → Node

abbrev pub FileSystem : Type 0
FileSystem = Dict FilePath Node

abbrev pub node_is_dir : Option Node → Bool
node_is_dir (some dir) = true
node_is_dir _ = false

abbrev pub file_of : Option Node → Option File
file_of (some (file f)) = some f
file_of _ = none

-- `Path::exists`, `Path::is_dir`
unfoldable pub exists : FileSystem → FilePath → Bool
exists fs p = is_some (Dict.lookup p fs)

unfoldable pub is_dir : FileSystem → FilePath → Bool
is_dir fs p = node_is_dir (Dict.lookup p fs)

-- `fs::read`: the file at a path, if there is one.
unfoldable pub read : FileSystem → FilePath → Option File
read fs p = file_of (Dict.lookup p fs)

-- `fs::read_dir`: the entries directly below, `none` where the path is no directory.
abbrev is_child : FilePath → FilePath → Bool
is_child p q = parent q == some p

paths_below : FilePath → FileSystem → List FilePath
paths_below p [] = []
paths_below p ((q, _) ∷ fs) = let rest = paths_below p fs in if is_child p q then q ∷ rest else rest

unfoldable pub read_dir : FileSystem → FilePath → Option (List FilePath)
unfolding paths_below is_dir parent
read_dir fs p = if is_dir fs p then some (paths_below p fs) else none

-- `fs::create_dir_all`, from the first component down; it fails where a file is in the way.
make_dirs : FilePath → List Text → FileSystem → Option FileSystem
make_dirs base [] fs = some fs
make_dirs base (c ∷ cs) fs =
    let p = base ++ c ∷ [] in
    let made = make_dirs p cs (Dict.insert p dir fs) in
    let there = make_dirs p cs fs in
    elim (Dict.lookup p fs) [ none ↦ made | some dir ↦ there | some (file _) ↦ none ]

unfoldable pub create_dir_all : FileSystem → FilePath → Option FileSystem
unfolding make_dirs
create_dir_all fs p = make_dirs [] p fs

-- The parent must be a directory; that of a bare name is the working directory.
unfoldable pub has_parent_dir : FileSystem → FilePath → Bool
has_parent_dir fs p = elim (parent p) [
  | none ↦ false
  | some [] ↦ true
  | some (c ∷ q) ↦ is_dir fs (c ∷ q)
]

-- `File::create` at a time: an empty file, in place of a file that was there.
unfoldable pub create : FileSystem → FilePath → ℕ → Option FileSystem
create fs p now =
    if is_dir fs p
    then none
    else if has_parent_dir fs p
    then some (Dict.insert p (file (record { content = []; modified = now })) fs)
    else none

-- `fs::remove_file`
unfoldable pub remove_file : FileSystem → FilePath → Option FileSystem
remove_file fs p = elim (read fs p) [ none ↦ none | some _ ↦ some (Dict.erase p fs) ]

-- `fs::remove_dir_all`: the directory and all below it.
unfoldable pub prune : FilePath → FileSystem → FileSystem
prune p [] = []
prune p ((q, n) ∷ fs) = let rest = prune p fs in if is_under p q then rest else (q, n) ∷ rest

unfoldable pub remove_dir_all : FileSystem → FilePath → Option FileSystem
remove_dir_all fs p = if is_dir fs p then some (prune p fs) else none
