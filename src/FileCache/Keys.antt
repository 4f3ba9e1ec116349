-- ===== src/FileCache/Keys.antt =====
-- server/src/file_cache.rs and server/src/static_file_filter.rs: the key of a file in the cache, and
-- the path that asks for the file.
use mathlib.Core.List.{append_assoc, append-nil}
use spa_server.Base.{◌≡◌, refl, sym, ◌∙◌, ap, false, List, [], ◌∷◌, ◌++◌, arith, nat_eq, list_eq}
use spa_server.Base.{All, contains, drop, ◌⊎◌, inl, inr}
use spa_server.Base.Text.{Text, codes, starts_with, replace, replace_from, split, split_from}
use spa_server.FilePath.{FilePath, slash, to_str}
use spa_server.FilePath.Names.{NoSlash}
use spa_server.FileSystem.{File}
use spa_server.FileCache.{FileCache, cache_file}
use spa_server.FileCache.Entries.{entry_of}
use spa_server.Crates.{Crates}
use spa_server.StaticFile.{cache_key, contains_str, has_bad_piece}
use spa_server.Base.Text.Replace.{replace-append}
use spa_server.FilePath.Slashes.{
  behind_slashes, behind_slashes-append, to_str-root, append_not_empty, IsFileName, NoRoot-of_names,
}

-- A name that a path may hold: no slash, no backslash, and no ".." at its beginning.
abbrev pub IsPlainName : Text → Type 0
IsPlainName name =
    IsFileName name × (starts_with name (codes "..") ≡ false) × (contains name b'\x5c' ≡ false)

pub names_of_plain : (names : List Text) → All IsPlainName names → All IsFileName names
names_of_plain [] h = tt
names_of_plain (name ∷ names) (h, k) = (h.0, names_of_plain names k)

split_from-name :
    (s t cur : Text) → NoSlash s → split_from b'/' cur (s ++ t) ≡ split_from b'/' (cur ++ s) t
unfolding split_from
split_from-name [] t cur h = rw append-nil refl
split_from-name (c ∷ s) t cur h =
    ground (arith, split_from-name s t (cur ++ c ∷ []) h.1, append_assoc cur (c ∷ []) s)

split_from-behind_slashes :
    (names : List Text) (cur : Text)
    → All IsFileName names
    → split_from b'/' cur (behind_slashes names) ≡ cur ∷ names
unfolding split_from nat_eq
split_from-behind_slashes [] cur h = refl
split_from-behind_slashes (name ∷ names) cur (h, k) =
    ap (λ (l : List Text). cur ∷ l)
      (split_from-name name (behind_slashes names) [] h.1 ∙ split_from-behind_slashes names name k)

no_bad_piece : (names : List Text) → All IsPlainName names → has_bad_piece names ≡ false
no_bad_piece [] h = refl
no_bad_piece (name ∷ names) (h, k) = ground (arith, no_bad_piece names k)

-- The check of paths lets plain names pass.
pub has_bad_piece-behind_slashes :
    (names : List Text)
    → All IsPlainName names
    → has_bad_piece (split b'/' (behind_slashes names)) ≡ false
unfolding split starts_with
has_bad_piece-behind_slashes names h =
    rw (split_from-behind_slashes names [] (names_of_plain names h)) (no_bad_piece names h)

-- What does not occur is not replaced.
replace-contains_str : (s p : Text) → contains_str s p ≡ false → replace s p [] ≡ s
unfolding replace replace_from contains_str
replace-contains_str [] p h = refl
replace-contains_str (c ∷ s) p h = ground (arith, replace-contains_str s p (ground arith))

contains_str-append : (a b p : Text) → contains_str (a ++ b) p ≡ false → contains_str b p ≡ false
unfolding contains_str
contains_str-append [] b p h = h
contains_str-append (c ∷ a) b p h = contains_str-append a b p (ground arith)

-- The key of a file is its path below the directory, unless the directory's path occurs there again.
pub entry_of-key :
    (crates : Crates) (cache : FileCache) (d b : Text) (base : List Text) (name : Text)
    (names : List Text) (f : File)
    → All IsFileName (b ∷ base)
    → All IsFileName ((b ∷ base) ++ name ∷ names)
    → contains_str (behind_slashes (name ∷ names)) (to_str (slash ∷ b ∷ base) ++ slash) ≡ false
    → (entry_of crates cache d (slash ∷ b ∷ base) (slash ∷ (b ∷ base) ++ name ∷ names) f).0
      ≡ name ++ behind_slashes names
unfolding entry_of cache_file
entry_of-key crates cache d b base name names f above all once =
    let p : List Text = b ∷ base in
    let front : Text = behind_slashes p ++ slash in
    let rest : Text = name ++ behind_slashes names in
    let whole : to_str (slash ∷ p ++ name ∷ names) ≡ front ++ rest =
      to_str-root (p ++ name ∷ names) (append_not_empty p (name ∷ names) (λ e. cc))
        (NoRoot-of_names (p ++ name ∷ names) all)
      ∙ behind_slashes-append p (name ∷ names)
      ∙ sym (append_assoc (behind_slashes p) slash rest) in
    let root : to_str (slash ∷ p) ≡ behind_slashes p =
      to_str-root p (λ e. cc) (NoRoot-of_names p above) in
    let once' : contains_str rest front ≡ false =
      contains_str-append slash rest front (rw root at once) in
    rw (whole, root, replace-append front rest [] (λ e. cc)) (replace-contains_str rest front once')

-- Names behind slashes tell which names they are.
pub names_of_behind_slashes :
    (names others : List Text)
    → All IsFileName names
    → All IsFileName others
    → behind_slashes names ≡ behind_slashes others
    → names ≡ others
names_of_behind_slashes names others h k e =
    let pieces : [] ∷ names ≡ [] ∷ others =
      sym (split_from-behind_slashes names [] h)
      ∙ ap (λ (s : Text). split_from b'/' [] s) e
      ∙ split_from-behind_slashes others [] k in
    cc

-- The text does not occur in the path but at its beginning.
abbrev pub OccursOnce : Text → FilePath → Type 0
OccursOnce p q = contains_str (drop 1 (to_str q)) p ≡ false

pub below_once :
    (b : Text) (base below : List Text) (p : Text)
    → All IsFileName ((b ∷ base) ++ below)
    → OccursOnce p (slash ∷ (b ∷ base) ++ below)
    → contains_str (behind_slashes below) p ≡ false
below_once b base below p all once =
    let whole : to_str (slash ∷ (b ∷ base) ++ below)
        ≡ b'/' ∷ (b ++ behind_slashes base) ++ behind_slashes below =
      to_str-root ((b ∷ base) ++ below) (λ e. cc) (NoRoot-of_names ((b ∷ base) ++ below) all)
      ∙ behind_slashes-append (b ∷ base) below in
    contains_str-append (b ++ behind_slashes base) (behind_slashes below) p (rw whole at once)

-- Which paths ask for the file of these names: its own, and the root for the index.
abbrev pub Asks : Text → List Text → Type 0
Asks decoded names =
    (decoded ≡ behind_slashes names) ⊎ ((decoded ≡ slash) × (names ≡ codes "index.html" ∷ []))

pub Asks-has_bad_piece :
    (decoded : Text) (names : List Text)
    → All IsPlainName names
    → Asks decoded names
    → has_bad_piece (split b'/' decoded) ≡ false
unfolding split starts_with nat_eq
Asks-has_bad_piece decoded names h (inl path) = rw path (has_bad_piece-behind_slashes names h)
Asks-has_bad_piece decoded names h (inr (root, index)) = rw root refl

pub Asks-cache_key :
    (decoded name : Text) (names : List Text)
    → All IsPlainName (name ∷ names)
    → Asks decoded (name ∷ names)
    → cache_key decoded ≡ name ++ behind_slashes names
unfolding cache_key nat_eq list_eq
Asks-cache_key decoded [] names h asks = absurd (h.0.0.0 refl)
Asks-cache_key decoded (c ∷ name) names h (inl path) = rw path refl
Asks-cache_key decoded (c ∷ name) names h (inr (root, index)) =
    rw root (ap (λ (l : List Text). drop 1 (behind_slashes l)) (sym index))
