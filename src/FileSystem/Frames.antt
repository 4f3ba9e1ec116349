-- ===== src/FileSystem/Frames.antt =====
-- What each call leaves alone: the paths that do not lie above or at the one it works on.
use mathlib.Core.List.{append_assoc}
use spa_server.Base.{
  ℕ, ◌≡◌, ◌≢◌, refl, true, false, inl, inr, none, some, List, [], ◌∷◌, ◌++◌, arith,
}
use spa_server.Base.{◌==◌, if◌then◌else◌, Bool-cases, eq_of_==, ==-refl, nat_eq, list_eq}
use spa_server.Base.Dict
use spa_server.Base.Text.{Text}
use spa_server.FilePath.{FilePath, is_under, parent}
use spa_server.FilePath.Names.{is_under-append, snoc_of_parent, is_under-snoc}
use spa_server.FileSystem.{dir, file, FileSystem, make_dirs, create_dir_all, create, remove_file}

pub is_under_refl : (p : FilePath) → is_under p p ≡ true
unfolding is_under
is_under_refl [] = refl
is_under_refl (c ∷ p) = ground (arith, ==-refl c, is_under_refl p)

pub is_under_trans :
    (p q r : FilePath) → is_under p q ≡ true → is_under q r ≡ true → is_under p r ≡ true
unfolding is_under
is_under_trans [] q r h k = refl
is_under_trans (c ∷ p) [] r h k = ground arith
is_under_trans (c ∷ p) (d ∷ q) [] h k = ground arith
is_under_trans (c ∷ p) (d ∷ q) (e ∷ r) h k = ground (arith, is_under_trans p q r)

-- A path that is not above another is not that path.
pub apart_of_not_above : (p q : FilePath) → is_under q p ≡ false → (q == p) ≡ false
apart_of_not_above p q h = elim (Bool-cases (q == p)) [
  | inr other ↦ other
  | inl same ↦ absurd (ground (arith, is_under_refl p, eq_of_== q p same))
]

-- What is not above a path is not above a part of it.
pub not_above-part :
    (p q r : FilePath) → is_under r p ≡ true → is_under q p ≡ false → is_under q r ≡ false
not_above-part p q r h k = elim (Bool-cases (is_under q r)) [
  | inr other ↦ other
  | inl above ↦ absurd (ground (arith, is_under_trans q r p above h))
]

pub parent-above : (p r : FilePath) → parent p ≡ some r → is_under r p ≡ true
parent-above p r h = rw (← snoc_of_parent p r h) (is_under-append r _)

-- What lies below one child of a directory is neither above nor below what lies below another one.
pub siblings_apart :
    (base p q : FilePath) (a b : Text)
    → is_under (base ++ a ∷ []) p ≡ true
    → is_under (base ++ b ∷ []) q ≡ true
    → b ≢ a
    → is_under q p ≡ false
siblings_apart base p q a b h k other = elim (Bool-cases (is_under q p)) [
  | inr apart ↦ apart
  | inl above ↦
      absurd (other (is_under-snoc base p b a (is_under_trans (base ++ b ∷ []) q p k above) h))
]

make_dirs-outside :
    (base : FilePath) (cs : List Text) (fs fs' : FileSystem) (q : FilePath)
    → make_dirs base cs fs ≡ some fs'
    → is_under q (base ++ cs) ≡ false
    → Dict.lookup q fs' ≡ Dict.lookup q fs
unfolding make_dirs
make_dirs-outside base [] fs fs' q h k = ground arith
make_dirs-outside base (c ∷ cs) fs fs' q h k =
    let p : FilePath = base ++ c ∷ [] in
    let whole : p ++ cs ≡ base ++ c ∷ cs = append_assoc base (c ∷ []) cs in
    let k' : is_under q (p ++ cs) ≡ false = rw whole k in
    ground (
      arith,
      k',
      Dict.lookup-insert q p dir fs,
      apart_of_not_above p q (not_above-part (p ++ cs) q p (is_under-append p cs) k'),
      make_dirs-outside p cs (Dict.insert p dir fs) fs' q,
      make_dirs-outside p cs fs fs' q,
    )

pub create_dir_all-outside :
    (fs fs' : FileSystem) (p q : FilePath)
    → create_dir_all fs p ≡ some fs'
    → is_under q p ≡ false
    → Dict.lookup q fs' ≡ Dict.lookup q fs
unfolding create_dir_all
create_dir_all-outside fs fs' p q h k = make_dirs-outside [] p fs fs' q h k

pub create-outside :
    (fs fs' : FileSystem) (p q : FilePath) (now : ℕ)
    → create fs p now ≡ some fs'
    → (q == p) ≡ false
    → Dict.lookup q fs' ≡ Dict.lookup q fs
unfolding create
create-outside fs fs' p q now h k =
    ground (arith, Dict.lookup-insert q p (file (record { content = []; modified = now })) fs)

pub remove_file-outside :
    (fs fs' : FileSystem) (p q : FilePath)
    → remove_file fs p ≡ some fs'
    → Dict.lookup q fs' ≡ (if q == p then none else Dict.lookup q fs)
unfolding remove_file
remove_file-outside fs fs' p q h = ground (arith, Dict.lookup-erase q p fs)
