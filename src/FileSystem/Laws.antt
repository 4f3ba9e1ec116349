-- ===== src/FileSystem/Laws.antt =====
-- What each call leaves at every path.
use mathlib.Core.List.{append_assoc}
use spa_server.Base.{true, ◌≢◌, ◌≡◌, refl, none, some, List, [], ◌∷◌, ◌++◌, arith}
use spa_server.Base.{if◌then◌else◌, nat_eq, list_eq}
use spa_server.Base.Dict
use spa_server.Base.Dict.{dict_laws}
use spa_server.Base.Text.{Text}
use spa_server.FilePath.{FilePath, is_under}
use spa_server.FileSystem.{
  File, Node, dir, file, FileSystem, exists, read, make_dirs, create_dir_all, prune,
}

pub lookup-prune :
    (p q : FilePath) (fs : FileSystem)
    → Dict.lookup q (prune p fs) ≡ (if is_under p q then none else Dict.lookup q fs)
unfolding prune Dict.lookup
lookup-prune p q [] = ground arith
lookup-prune p q ((r, n) ∷ fs) = ground (arith, lookup-prune p q fs)

-- Directories that are made replace nothing.
make_dirs-keeps :
    (base : FilePath) (cs : List Text) (fs fs' : FileSystem) (q : FilePath) (n : Node)
    → make_dirs base cs fs ≡ some fs'
    → Dict.lookup q fs ≡ some n
    → Dict.lookup q fs' ≡ some n
unfolding make_dirs
make_dirs-keeps base [] fs fs' q n h k = ground arith
make_dirs-keeps base (c ∷ cs) fs fs' q n h k = ground (
  arith,
  Dict.lookup-insert q (base ++ c ∷ []) dir fs,
  make_dirs-keeps (base ++ c ∷ []) cs (Dict.insert (base ++ c ∷ []) dir fs) fs' q n,
  make_dirs-keeps (base ++ c ∷ []) cs fs fs' q n,
)

pub create_dir_all-keeps :
    (fs fs' : FileSystem) (p q : FilePath) (n : Node)
    → create_dir_all fs p ≡ some fs'
    → Dict.lookup q fs ≡ some n
    → Dict.lookup q fs' ≡ some n
unfolding create_dir_all
create_dir_all-keeps fs fs' p q n h k = make_dirs-keeps [] p fs fs' q n h k

-- Only directories are made.
make_dirs-new :
    (base : FilePath) (cs : List Text) (fs fs' : FileSystem) (q : FilePath) (f : File)
    → make_dirs base cs fs ≡ some fs'
    → Dict.lookup q fs' ≡ some (file f)
    → Dict.lookup q fs ≡ some (file f)
unfolding make_dirs
make_dirs-new base [] fs fs' q f h k = ground arith
make_dirs-new base (c ∷ cs) fs fs' q f h k = ground (
  arith,
  Dict.lookup-insert q (base ++ c ∷ []) dir fs,
  make_dirs-new (base ++ c ∷ []) cs (Dict.insert (base ++ c ∷ []) dir fs) fs' q f,
  make_dirs-new (base ++ c ∷ []) cs fs fs' q f,
)

pub create_dir_all-files :
    (fs fs' : FileSystem) (p q : FilePath) (f : File)
    → create_dir_all fs p ≡ some fs'
    → Dict.lookup q fs' ≡ some (file f)
    → Dict.lookup q fs ≡ some (file f)
unfolding create_dir_all
create_dir_all-files fs fs' p q f h k = make_dirs-new [] p fs fs' q f h k

-- The path itself is a directory afterwards.
make_dirs-is_dir :
    (base : FilePath) (c : Text) (cs : List Text) (fs fs' : FileSystem)
    → make_dirs base (c ∷ cs) fs ≡ some fs'
    → Dict.lookup (base ++ c ∷ cs) fs' ≡ some dir
unfolding make_dirs
make_dirs-is_dir base c [] fs fs' h =
    ground (arith, Dict.lookup-insert (base ++ c ∷ []) (base ++ c ∷ []) dir fs)
make_dirs-is_dir base c (d ∷ cs) fs fs' h = rw (← append_assoc base (c ∷ []) (d ∷ cs)) (
    ground (
      arith,
      make_dirs-is_dir (base ++ c ∷ []) d cs (Dict.insert (base ++ c ∷ []) dir fs) fs',
      make_dirs-is_dir (base ++ c ∷ []) d cs fs fs',
    ))

pub create_dir_all-is_dir :
    (fs fs' : FileSystem) (p : FilePath)
    → create_dir_all fs p ≡ some fs'
    → p ≢ []
    → Dict.lookup p fs' ≡ some dir
unfolding create_dir_all
create_dir_all-is_dir fs fs' [] h k = absurd (k refl)
create_dir_all-is_dir fs fs' (c ∷ p) h k = make_dirs-is_dir [] c p fs fs' h

-- A file that is read is there.
pub exists_of_read :
    (fs : FileSystem) (path : FilePath) (f : File) → read fs path ≡ some f → exists fs path ≡ true
unfolding exists read
exists_of_read fs path f h = ground arith
