-- ===== src/FilePath.antt =====
-- `std::path::PathBuf` by its components. The root of an absolute path is the component "/".
pub mod Names
pub mod Slashes
use spa_server.Base.{Bool, true, false, not, ◌&&◌, ◌||◌, List, [], ◌∷◌, ◌++◌, nat_eq, list_eq}
use spa_server.Base.{◌==◌, if◌then◌else◌, filter, is_empty, ℕ, zero, suc, Option, none, some}
use spa_server.Base.Text.{Text, codes, starts_with, split}

abbrev pub FilePath : Type 0
FilePath = List Text

abbrev pub slash : Text
slash = b'/' ∷ []

-- `components()` drops empty and "." pieces.
unfoldable pub is_piece : Text → Bool
unfolding nat_eq list_eq
is_piece s = not (is_empty s) && not (s == codes ".")

unfoldable pub components : Text → List Text
unfolding split is_piece
components s = filter is_piece (split b'/' s)

-- `Path::join`, `PathBuf::push`: an absolute argument replaces the path.
unfoldable pub join : FilePath → Text → FilePath
unfolding starts_with components
join p s = if starts_with s slash then slash ∷ components s else p ++ components s

-- `DirEntry::file_name`, `Path::file_name`: the last component.
unfoldable pub file_name : FilePath → Text
file_name [] = []
file_name (c ∷ []) = c
file_name (c ∷ d ∷ p) = file_name (d ∷ p)

-- All components but the last one.
abbrev front : Text → FilePath → FilePath
front d [] = []
front d (e ∷ q) = d ∷ front e q

-- `Path::parent`, `None` at the root and at the empty path.
unfoldable pub parent : FilePath → Option FilePath
unfolding nat_eq list_eq
parent [] = none
parent (c ∷ []) = if c == slash then none else some []
parent (c ∷ d ∷ p) = some (c ∷ front d p)

-- `Path::to_str`
unfoldable pub to_str : FilePath → Text
unfolding nat_eq list_eq
to_str [] = []
to_str (c ∷ []) = c
to_str (c ∷ d ∷ p) =
    let below = to_str (d ∷ p) in if c == slash then c ++ below else c ++ b'/' ∷ below

-- Is the second path the first or one below it?
unfoldable pub is_under : FilePath → FilePath → Bool
is_under [] q = true
is_under (c ∷ p) [] = false
is_under (c ∷ p) (d ∷ q) = c == d && is_under p q

-- How many components the second path has below the first; meant where `is_under` holds.
abbrev pub depth_below : FilePath → FilePath → ℕ
depth_below [] [] = 0
depth_below [] (d ∷ q) = suc (depth_below [] q)
depth_below (c ∷ p) [] = 0
depth_below (c ∷ p) (d ∷ q) = depth_below p q
