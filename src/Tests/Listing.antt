-- ===== src/Tests/Listing.antt =====
-- The digest of a file, and a server that has the file already.
use spa_server.FilePath.{file_name}
use spa_server.Base.Text.Decimal.{to_string}
use spa_server.Base.Text.Decimal.{digits}
use spa_server.Base.{
  ℕ, ◌≡◌, ◌≤◌, ◌<◌, ◌⊎◌, refl, true, none, some, List, [], ◌∷◌, ◌++◌, All, arith, nat_eq, list_eq,
  option_eq,
}
use spa_server.Base.{
  zero, suc, subst, inl, inr, Bool-cases, eq_of_==, map, length, some-injective, ◌==◌,
}
use mathlib.Core.List.{append_assoc, append-nil}
use spa_server.Base.Dict
use spa_server.Base.Text.{Text, codes, starts_with, replace}
use spa_server.FilePath.{slash, to_str, join}
use spa_server.FileSystem.{Node, dir, is_dir, FileSystem, exists, file, read}
use spa_server.Storage.{get_version_path, get_files_metadata}
use spa_server.Storage.Digest.{Hasher, IsHasher, Read, IsRead, md5_file, md5_file-Digested}
use spa_server.Client.Upload.{uploading_entry, by_path}
use spa_server.Client.Upload.Resends.Listed.{uploading_entry-resends}
use spa_server.Tests.Fixtures.{crates, crates-IsWalk, storage, version_dir, index, domain, page}
use spa_server.FilePath.Slashes.{IsFileName}
use spa_server.FileSystem.Disk.{IsDisk}

-- A digest that keeps its bytes, and reads of a byte at a time.
abbrev hasher : Hasher Text
hasher = record { new = []; update = λ h t. h ++ t; finalize = λ h. h }

hasher-IsHasher : IsHasher hasher
hasher-IsHasher = record {
  update-nil = λ h. append-nil h;
  update-append = λ h a b. append_assoc h a b;
}

abbrev one : ℕ → Text → ℕ
one zero rest = 0
one (suc size) [] = 0
one (suc size) (c ∷ rest) = 1

abbrev one_by_one : Read
one_by_one i size rest = some (one size rest)

one-within : (size : ℕ) (rest : Text) → one size rest ≤ length rest
one-within zero rest = omega arith
one-within (suc size) [] = omega arith
one-within (suc size) (c ∷ rest) = omega arith

one-progress : (size : ℕ) (rest : Text) → 0 < size → one size rest ≡ 0 → rest ≡ []
one-progress zero rest h e = absurd (omega (arith, h))
one-progress (suc size) [] h e = refl
one-progress (suc size) (c ∷ rest) h e = absurd (omega (arith, e))

one_by_one-IsRead : IsRead one_by_one
one_by_one-IsRead = record {
  within = λ i size rest n h.
      subst (λ (m : ℕ). m ≤ length rest) (some-injective _ _ h) (one-within size rest);
  progress = λ i size rest full h. one-progress size rest full (some-injective _ _ h);
}

md5_file-Digested_example :
    (md5_file hasher one_by_one (some (codes "hello")) 4 ≡ some (some (codes "hello")))
    ⊎ ((i : ℕ) × (t : Text) × (one_by_one i 4 t ≡ none)
        × (md5_file hasher one_by_one (some (codes "hello")) 4 ≡ some none))
md5_file-Digested_example =
    md5_file-Digested hasher one_by_one one_by_one-IsRead hasher-IsHasher (codes "hello") 4
      (omega arith)

five_bytes : md5_file hasher one_by_one (some (codes "hello")) 4 ≡ some (some (codes "hello"))
unfolding md5_file
five_bytes = refl

-- A server that has the file already.
IsDisk-cons :
    (r : List Text) (n : Node) (fs : FileSystem)
    → All IsFileName r
    → IsDisk fs
    → IsDisk ((slash ∷ r, n) ∷ fs)
unfolding exists
IsDisk-cons r n fs names h = record {
  names = λ q there. elim (Bool-cases (q == slash ∷ r)) [
    | inl same ↦ (r, eq_of_== q (slash ∷ r) same, names)
    | inr other ↦ h.names q (ground (arith, there, other, Dict.lookup-cons q (slash ∷ r) n fs))
  ];
}

IsDisk-nil : IsDisk []
unfolding exists
IsDisk-nil = record { names = λ q there. ground (arith, there, Dict.lookup-nil {V = Node} q) }

abbrev pub stored : FileSystem
stored = (version_dir b'1', dir) ∷ (index, file page) ∷ []

pub w_name : IsFileName (codes "w")
w_name = (λ e. cc, omega arith)

pub domain_name : IsFileName domain
domain_name = (λ e. cc, omega arith)

pub one_name : IsFileName (codes "1")
one_name = (λ e. cc, omega arith)

pub index_name : IsFileName (codes "index.html")
index_name = (λ e. cc, omega arith)

pub stored-IsDisk : IsDisk stored
stored-IsDisk =
    IsDisk-cons _ dir _ (w_name, (domain_name, (one_name, tt)))
      (IsDisk-cons _ (file page) [] (w_name, (domain_name, (one_name, (index_name, tt))))
        IsDisk-nil)

abbrev local : FileSystem
local = (slash ∷ codes "l" ∷ codes "index.html" ∷ [], file page) ∷ []

pub version_one : get_version_path storage domain 1 ≡ slash ∷ codes "w" ∷ domain ∷ codes "1" ∷ []
unfolding get_version_path join to_string digits
version_one = refl

version_one_dir : is_dir stored (slash ∷ codes "w" ∷ domain ∷ codes "1" ∷ []) ≡ true
unfolding is_dir Dict.lookup list_eq nat_eq
version_one_dir = refl

local_read : read local (slash ∷ codes "l" ∷ codes "index.html" ∷ []) ≡ some page
unfolding read Dict.lookup list_eq nat_eq
local_read = refl

local_key :
    starts_with
      (replace (to_str (slash ∷ codes "l" ∷ codes "index.html" ∷ [])) (codes "/l") [])
      slash
    ≡ true
unfolding starts_with replace to_str
local_key = refl

uploading_entry-resends_example :
    uploading_entry crates.walk crates.md5 local
      (codes "/l")
      (by_path (get_files_metadata crates storage stored domain 1))
      (slash ∷ codes "l" ∷ codes "index.html" ∷ [])
    ≡ some (
      replace (to_str (slash ∷ codes "l" ∷ codes "index.html" ∷ [])) (codes "/l") [],
      slash ∷ codes "l" ∷ codes "index.html" ∷ [],
    )
uploading_entry-resends_example =
    uploading_entry-resends crates crates-IsWalk storage stored domain 1 (codes "w")
      (domain ∷ codes "1" ∷ []) crates.walk crates.md5 local (codes "/l")
      (slash ∷ codes "l" ∷ codes "index.html" ∷ []) page version_one version_one_dir stored-IsDisk
      local_read local_key

-- The server lists the file, with the digest that the client finds.
listed_there :
    map {B = Text × Text} (λ x. (x.path, x.md5)) (get_files_metadata crates storage stored domain 1)
    ≡ (codes "index.html", crates.md5 page.content) ∷ []
unfolding get_files_metadata Dict.lookup join to_string digits crates file_name read to_str
listed_there = refl
