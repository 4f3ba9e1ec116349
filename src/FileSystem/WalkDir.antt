-- ===== src/FileSystem/WalkDir.antt =====
-- The crate `walkdir`, which is not part of this repository. The program drops the errors of a walk,
-- so the parameter gives the entries that could be read.
use spa_server.Base.{
  ℕ, ◌≡◌, Bool, true, ◌&&◌, Option, none, some, List, contains, leb, nat_eq, list_eq,
}
use spa_server.FilePath.{FilePath, is_under, depth_below}
use spa_server.FileSystem.{FileSystem, exists}

-- `WalkDir::new(root)`, or with `max_depth(d)`.
abbrev pub Walk : Type 0
Walk = FileSystem → FilePath → Option ℕ → List FilePath

abbrev pub fits_depth : Option ℕ → ℕ → Bool
fits_depth none n = true
fits_depth (some d) n = leb n d

-- The documented behaviour: a walk yields the root and everything below it, no deeper than asked.
pub record IsWalk (walk : Walk) : Type 0 where
  pub contains-walk :
      (fs : FileSystem) (root q : FilePath) (depth : Option ℕ)
      → contains (walk fs root depth) q
        ≡ (exists fs q && is_under root q && fits_depth depth (depth_below root q))
