-- ===== src/FileSystem/Entries.antt =====
-- What `read_dir` lists.
use spa_server.Base.{
  ◌≡◌, ◌≢◌, refl, true, ◌&&◌, some, List, [], ◌∷◌, ◌++◌, arith, nat_eq, list_eq, option_eq,
}
use spa_server.Base.{subst, contains, All, ==-refl, some-injective, Bool-cases, eq_of_==, inl, inr}
use spa_server.Base.Dict
use spa_server.Base.Text.{Text}
use spa_server.FilePath.{FilePath, file_name}
use spa_server.FilePath.Names.{snoc_of_parent, parent-snoc}
use spa_server.FileSystem.{FileSystem, exists, is_child, paths_below, read_dir, is_dir}

contains-paths_below :
    (p q : FilePath) (fs : FileSystem)
    → contains (paths_below p fs) q ≡ (exists fs q && is_child p q)
unfolding paths_below exists Dict.lookup
contains-paths_below p q [] = refl
contains-paths_below p q ((r, n) ∷ fs) = ground (arith, contains-paths_below p q fs)

paths_below_children :
    (p : FilePath) (fs : FileSystem)
    → All (λ (q : FilePath). p ++ file_name q ∷ [] ≡ q) (paths_below p fs)
unfolding paths_below
paths_below_children p [] = tt
paths_below_children p ((q, n) ∷ fs) = elim (Bool-cases (is_child p q)) [
  | inl child ↦
      rw (child, paths_below) (snoc_of_parent q p (eq_of_== _ _ child), paths_below_children p fs)
  | inr other ↦ rw (other, paths_below) (paths_below_children p fs)
]

pub read_dir_children :
    (fs : FileSystem) (p : FilePath) (ps : List FilePath)
    → read_dir fs p ≡ some ps
    → All (λ (q : FilePath). p ++ file_name q ∷ [] ≡ q) ps
unfolding read_dir
read_dir_children fs p ps h = elim (Bool-cases (is_dir fs p)) [
  | inl there ↦
      subst (All (λ (q : FilePath). p ++ file_name q ∷ [] ≡ q))
        (some-injective (paths_below p fs) ps (ground (arith, there))) (paths_below_children p fs)
  | inr missing ↦ ground (arith, missing)
]

is_child-snoc : (p : FilePath) (c : Text) → p ≢ [] → is_child p (p ++ c ∷ []) ≡ true
is_child-snoc p c named = rw (parent-snoc p c named) (==-refl (some p))

pub contains-read_dir :
    (fs : FileSystem) (p : FilePath) (c : Text) (ps : List FilePath)
    → read_dir fs p ≡ some ps
    → p ≢ []
    → exists fs (p ++ c ∷ []) ≡ true
    → contains ps (p ++ c ∷ []) ≡ true
unfolding read_dir
contains-read_dir fs p c ps h named there = elim (Bool-cases (is_dir fs p)) [
  | inl found ↦
      ground (arith, found, contains-paths_below p (p ++ c ∷ []) fs, is_child-snoc p c named, there)
  | inr missing ↦ ground (arith, missing)
]

-- Only what is there is listed.
pub exists_of_read_dir :
    (fs : FileSystem) (p q : FilePath) (ps : List FilePath)
    → read_dir fs p ≡ some ps
    → contains ps q ≡ true
    → exists fs q ≡ true
unfolding read_dir
exists_of_read_dir fs p q ps h m = elim (Bool-cases (is_dir fs p)) [
  | inl found ↦ ground (arith, found, contains-paths_below p q fs)
  | inr missing ↦ ground (arith, missing)
]

pub is_dir_of_read_dir :
    (fs : FileSystem) (p : FilePath) (ps : List FilePath)
    → read_dir fs p ≡ some ps
    → is_dir fs p ≡ true
unfolding read_dir
is_dir_of_read_dir fs p ps h = ground arith

pub exists_of_is_dir : (fs : FileSystem) (p : FilePath) → is_dir fs p ≡ true → exists fs p ≡ true
unfolding exists is_dir
exists_of_is_dir fs p h = ground arith
