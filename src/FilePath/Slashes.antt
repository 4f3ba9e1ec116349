-- ===== src/FilePath/Slashes.antt =====
-- The text of a path that is made of names.
use mathlib.Core.List.{append_assoc, append-nil}
use spa_server.Base.{
  ◌≡◌, ◌≢◌, refl, ap, sym, ◌∙◌, subst, true, false, List, [], ◌∷◌, ◌++◌, arith, nat_eq, list_eq,
  inl, inr,
}
use spa_server.Base.{◌==◌, All, Bool-cases, eq_of_==}
use spa_server.Base.Text.{Text}
use spa_server.FilePath.{FilePath, slash, to_str, is_under}
use spa_server.FilePath.Names.{NoSlash}

-- The names of a path, each behind a slash.
abbrev pub behind_slashes : List Text → Text
behind_slashes [] = []
behind_slashes (name ∷ names) = b'/' ∷ name ++ behind_slashes names

abbrev pub NoRoot : List Text → Type 0
NoRoot names = All (λ (name : Text). (name == slash) ≡ false) names

to_str-behind_slashes :
    (name : Text) (names : List Text)
    → NoRoot (name ∷ names)
    → to_str (name ∷ names) ≡ name ++ behind_slashes names
unfolding to_str
to_str-behind_slashes name [] h = sym (append-nil name)
to_str-behind_slashes name (next ∷ names) (h, k) =
    ground (arith, h, to_str-behind_slashes next names k)

pub behind_slashes-append :
    (a b : List Text) → behind_slashes (a ++ b) ≡ behind_slashes a ++ behind_slashes b
behind_slashes-append [] b = refl
behind_slashes-append (name ∷ a) b =
    ap (λ (t : Text). b'/' ∷ t)
      (ap (λ (t : Text). name ++ t) (behind_slashes-append a b)
        ∙ sym (append_assoc name (behind_slashes a) (behind_slashes b)))

pub to_str-root :
    (names : List Text) → names ≢ [] → NoRoot names → to_str (slash ∷ names) ≡ behind_slashes names
unfolding to_str
to_str-root [] h k = absurd (h refl)
to_str-root (name ∷ names) h k = rw (to_str-behind_slashes name names k) refl

pub NoRoot-append : (a b : List Text) → NoRoot a → NoRoot b → NoRoot (a ++ b)
NoRoot-append [] b h k = k
NoRoot-append (name ∷ a) b (h, hs) k = (h, NoRoot-append a b hs k)

pub append_not_empty : (a b : List Text) → a ≢ [] → a ++ b ≢ []
append_not_empty [] b h = absurd (h refl)
append_not_empty (name ∷ a) b h = λ e. cc

abbrev pub IsFileName : Text → Type 0
IsFileName name = (name ≢ []) × NoSlash name

pub NoRoot-of_names : (r : List Text) → All IsFileName r → NoRoot r
NoRoot-of_names [] h = tt
NoRoot-of_names (name ∷ r) ((full, plain), h) = (
  elim (Bool-cases (name == slash)) [
    | inr other ↦ other
    | inl same ↦ absurd ((subst NoSlash (eq_of_== name slash same) plain).0 refl)
  ],
  NoRoot-of_names r h,
)

-- What lies below a path has it as its beginning.
pub split_under : (p q : FilePath) → is_under p q ≡ true → (r : FilePath) × (q ≡ p ++ r)
unfolding is_under
split_under [] q h = (q, refl)
split_under (c ∷ p) [] h = ground (arith, h)
split_under (c ∷ p) (d ∷ q) h =
    let (r, e) = split_under p q (ground (arith, h)) in (r, ground (arith, h, e))

pub All-back : (p r : List Text) → All IsFileName (p ++ r) → All IsFileName r
All-back [] r h = h
All-back (c ∷ p) r (k, h) = All-back p r h

pub All-front : (p r : List Text) → All IsFileName (p ++ r) → All IsFileName p
All-front [] r h = tt
All-front (c ∷ p) r (k, h) = (k, All-front p r h)

pub tail_of : (c : Text) (p q : FilePath) → c ∷ p ≡ c ∷ q → p ≡ q
tail_of c p q e = cc
