-- ===== src/FilePath/Names.antt =====
-- Single names, and the paths that end in them.
use spa_server.Base.{◌≡◌, refl, ◌≢◌, true, false, [], ◌∷◌, ◌++◌, arith, nat_eq, list_eq}
use spa_server.Base.{
  ℕ, is_empty, ap, some, Bool-cases, inl, inr, some-injective, none-ne-some, ◌==◌,
}
use mathlib.Core.List.{append-nil, append_assoc}
use spa_server.Base.Text.{Text, starts_with, split_from, split}
use spa_server.Base.Text.Decimal.{AllDigits, to_string, to_string-AllDigits, to_string-not-empty}
use spa_server.FilePath.{
  FilePath, slash, is_piece, components, join, file_name, is_under, front, parent,
}

-- A text that is one component: it is not empty, not ".", and holds no slash.
abbrev pub NoSlash : Text → Type 0
NoSlash [] = Unit {0}
NoSlash (c ∷ s) = (c ≢ b'/') × NoSlash s

abbrev pub IsName : Text → Type 0
IsName s = (is_piece s ≡ true) × NoSlash s

split_from_of_NoSlash : (s cur : Text) → NoSlash s → split_from b'/' cur s ≡ (cur ++ s) ∷ []
unfolding split_from
split_from_of_NoSlash [] cur h = rw append-nil
split_from_of_NoSlash (c ∷ s) cur h =
    ground (arith, split_from_of_NoSlash s (cur ++ c ∷ []) h.1, append_assoc cur (c ∷ []) s)

components_of_IsName : (s : Text) → IsName s → components s ≡ s ∷ []
unfolding components split
components_of_IsName s h = rw (split_from_of_NoSlash s [] h.1, h.0)

starts_with-slash_of_NoSlash : (s : Text) → NoSlash s → starts_with s slash ≡ false
unfolding starts_with
starts_with-slash_of_NoSlash [] h = refl
starts_with-slash_of_NoSlash (c ∷ s) h = ground arith

-- Joining a single name adds one component.
pub join_of_IsName : (p : FilePath) (s : Text) → IsName s → join p s ≡ p ++ s ∷ []
unfolding join
join_of_IsName p s h = rw (starts_with-slash_of_NoSlash s h.1, components_of_IsName s h)

NoSlash-of_AllDigits : (s : Text) → AllDigits s → NoSlash s
NoSlash-of_AllDigits [] h = tt
NoSlash-of_AllDigits (c ∷ s) h = (ground arith, NoSlash-of_AllDigits s h.1)

is_piece_of_AllDigits : (s : Text) → AllDigits s → is_empty s ≡ false → is_piece s ≡ true
unfolding is_piece
is_piece_of_AllDigits [] h k = cc
is_piece_of_AllDigits (c ∷ s) h k = ground arith

-- The printed form of a version is a single name.
pub to_string-IsName : (n : ℕ) → IsName (to_string n)
to_string-IsName n = (
  is_piece_of_AllDigits _ (to_string-AllDigits n) (to_string-not-empty n),
  NoSlash-of_AllDigits _ (to_string-AllDigits n),
)

pub file_name-snoc : (p : FilePath) (s : Text) → file_name (p ++ s ∷ []) ≡ s
unfolding file_name
file_name-snoc [] s = refl
file_name-snoc (c ∷ []) s = refl
file_name-snoc (c ∷ d ∷ p) s = file_name-snoc (d ∷ p) s

pub is_under-append : (p q : FilePath) → is_under p (p ++ q) ≡ true
unfolding is_under
is_under-append [] q = refl
is_under-append (c ∷ p) q = ground (arith, is_under-append p q)

-- A path lies below one child of a directory at most.
pub is_under-snoc :
    (p q : FilePath) (a b : Text)
    → is_under (p ++ a ∷ []) q ≡ true
    → is_under (p ++ b ∷ []) q ≡ true
    → a ≡ b
unfolding is_under
is_under-snoc [] [] a b h k = cc
is_under-snoc [] (c ∷ q) a b h k = ground arith
is_under-snoc (c ∷ p) [] a b h k = cc
is_under-snoc (c ∷ p) (d ∷ q) a b h k = is_under-snoc p q a b (ground arith) (ground arith)

front-snoc : (d : Text) (q : FilePath) → front d q ++ file_name (d ∷ q) ∷ [] ≡ d ∷ q
unfolding file_name
front-snoc d [] = refl
front-snoc d (e ∷ q) = ap (λ (r : FilePath). d ∷ r) (front-snoc e q)

-- A path is its parent with its last component.
pub snoc_of_parent : (q p : FilePath) → parent q ≡ some p → p ++ file_name q ∷ [] ≡ q
unfolding parent file_name
snoc_of_parent [] p h = absurd (none-ne-some _ h)
snoc_of_parent (c ∷ []) p h = elim (Bool-cases (c == slash)) [
  | inl root ↦ ground (arith, root)
  | inr name ↦ ground (arith, name)
]
snoc_of_parent (c ∷ d ∷ q) p h =
    rw (← some-injective _ _ h) (ap (λ (r : FilePath). c ∷ r) (front-snoc d q))

front-append : (d : Text) (q : FilePath) (c : Text) → front d (q ++ c ∷ []) ≡ d ∷ q
front-append d [] c = refl
front-append d (e ∷ q) c = ap (λ (r : FilePath). d ∷ r) (front-append e q c)

pub parent-snoc : (p : FilePath) (c : Text) → p ≢ [] → parent (p ++ c ∷ []) ≡ some p
unfolding parent
parent-snoc [] c h = absurd (h refl)
parent-snoc (d ∷ []) c h = refl
parent-snoc (d ∷ e ∷ p) c h = ap (λ (r : FilePath). some (d ∷ r)) (front-append e p c)
