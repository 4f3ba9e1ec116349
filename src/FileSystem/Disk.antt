-- ===== src/FileSystem/Disk.antt =====
-- A disk whose paths are absolute.
use spa_server.Base.{◌≡◌, true, List, ◌∷◌}
use spa_server.Base.{All}
use spa_server.Base.Text.{Text}
use spa_server.FilePath.{FilePath, slash}
use spa_server.FilePath.Slashes.{IsFileName}
use spa_server.FileSystem.{FileSystem, exists}

-- The disk's paths are absolute, and their other components are names.
pub record IsDisk (fs : FileSystem) : Type 0 where
  pub names :
      (q : FilePath) → exists fs q ≡ true → (r : List Text) × (q ≡ slash ∷ r) × All IsFileName r
