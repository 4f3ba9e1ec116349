-- ===== src/Base/Text/Decimal.antt =====
-- `u32::to_string` and `str::parse::<u32>`.
use spa_server.Base.{ℕ, zero, suc, ◌+◌, ◌*◌, ◌-◌, ◌/◌, ◌%◌, ◌<◌, ◌≡◌, refl, Bool, true, false, ◌&&◌}
use spa_server.Base.{not, Option, none, some, List, [], ◌∷◌, ◌++◌, arith, ltb, leb, nat_eq}
use spa_server.Base.{◌==◌, if◌then◌else◌, is_empty, lt→ltb, Bool-cases, inl, inr}
use mathlib.Core.List.{append_assoc, append-nil}

-- `u32::MAX + 1`
abbrev pub u32_mod : ℕ
u32_mod = 4294967296

abbrev pub is_digit : ℕ → Bool
is_digit c = leb b'0' c && leb c b'9'

unfoldable pub digits : ℕ → ℕ → List ℕ
digits zero n = []
digits (suc fuel) n =
    let more = digits fuel (n / 10) ++ (b'0' + n % 10) ∷ [] in
    if ltb n 10 then (b'0' + n) ∷ [] else more

-- A `u32` has at most ten digits.
unfoldable pub to_string : ℕ → List ℕ
to_string n = digits 10 n

unfoldable pub parse_digits : ℕ → List ℕ → Option ℕ
parse_digits acc [] = some acc
parse_digits acc (c ∷ s) =
    let rest = parse_digits (acc * 10 + (c - b'0')) s in
    if is_digit c && ltb (acc * 10 + (c - b'0')) u32_mod then rest else none

-- A plus sign that stands alone is no sign, and then no digit.
abbrev strip_plus : List ℕ → List ℕ
strip_plus [] = []
strip_plus (c ∷ s) = if c == b'+' && not (is_empty s) then s else c ∷ s

unfoldable pub parse_u32 : List ℕ → Option ℕ
unfolding parse_digits
parse_u32 s = if is_empty s then none else parse_digits 0 (strip_plus s)

abbrev pub AllDigits : List ℕ → Type 0
AllDigits [] = Unit {0}
AllDigits (c ∷ s) = (is_digit c ≡ true) × AllDigits s

abbrev pow10 : ℕ → ℕ
pow10 zero = 1
pow10 (suc k) = 10 * pow10 k

AllDigits-snoc : (s : List ℕ) (c : ℕ) → AllDigits s → is_digit c ≡ true → AllDigits (s ++ c ∷ [])
AllDigits-snoc [] c h k = (k, tt)
AllDigits-snoc (d ∷ s) c h k = (h.0, AllDigits-snoc s c h.1 k)

is_digit-mod : (n : ℕ) → is_digit (b'0' + n % 10) ≡ true
is_digit-mod n = ground arith

digits-AllDigits : (fuel n : ℕ) → AllDigits (digits fuel n)
unfolding digits
digits-AllDigits zero n = tt
digits-AllDigits (suc fuel) n = ground (
  arith,
  AllDigits-snoc (digits fuel (n / 10)) (b'0' + n % 10),
  digits-AllDigits fuel (n / 10),
  is_digit-mod n,
)

pub to_string-AllDigits : (n : ℕ) → AllDigits (to_string n)
unfolding to_string
to_string-AllDigits n = digits-AllDigits 10 n

snoc-not-empty : (s : List ℕ) (c : ℕ) → is_empty (s ++ c ∷ []) ≡ false
snoc-not-empty [] c = refl
snoc-not-empty (d ∷ s) c = refl

digits-not-empty : (fuel n : ℕ) → is_empty (digits (suc fuel) n) ≡ false
unfolding digits
digits-not-empty fuel n = ground (arith, snoc-not-empty (digits fuel (n / 10)) (b'0' + n % 10))

pub to_string-not-empty : (n : ℕ) → is_empty (to_string n) ≡ false
unfolding to_string
to_string-not-empty n = digits-not-empty 9 n

parse_digits-digit :
    (acc d n : ℕ) (rest : List ℕ)
    → d < 10
    → n ≡ acc * 10 + d
    → n < u32_mod
    → parse_digits acc ((b'0' + d) ∷ rest) ≡ parse_digits n rest
unfolding parse_digits
parse_digits-digit acc d n rest small value fits =
    let same : acc * 10 + (b'0' + d - b'0') ≡ n = omega arith in
    let digit : is_digit (b'0' + d) ≡ true = ground arith in rw (digit, same, lt→ltb n u32_mod fits)

parse_digits-digits :
    (fuel n : ℕ) (rest : List ℕ)
    → n < pow10 fuel
    → n < u32_mod
    → parse_digits 0 (digits fuel n ++ rest) ≡ parse_digits n rest
unfolding digits
parse_digits-digits zero n rest h k = ground arith
parse_digits-digits (suc fuel) n rest h k = elim (Bool-cases (ltb n 10)) [
  | inl small ↦ rw small (parse_digits-digit 0 n n rest (ground arith) (omega arith) k)
  | inr large ↦
      rw
        (
          large,
          append_assoc,
          parse_digits-digits fuel (n / 10) ((b'0' + n % 10) ∷ rest) (ground arith) (ground arith),
        )
        (parse_digits-digit (n / 10) (n % 10) n rest (omega arith) (omega arith) k)
]

strip_plus_digits : (s : List ℕ) → AllDigits s → strip_plus s ≡ s
unfolding nat_eq
strip_plus_digits [] h = refl
strip_plus_digits (c ∷ s) h = ground arith

-- Parsing what `to_string` prints gives the number back, for every `u32`.
pub parse_u32-to_string : (n : ℕ) → n < u32_mod → parse_u32 (to_string n) ≡ some n
unfolding parse_u32
parse_u32-to_string n h =
    rw
      (
        to_string-not-empty n,
        strip_plus_digits _ (to_string-AllDigits n),
        ← append-nil (to_string n),
      )
      (unfold to_string in parse_digits-digits 10 n [] (omega arith) h)

parse_digits-lt :
    (s : List ℕ) (acc n : ℕ) → acc < u32_mod → parse_digits acc s ≡ some n → n < u32_mod
unfolding parse_digits
parse_digits-lt [] acc n h e = ground arith
parse_digits-lt (c ∷ s) acc n h e = ground (arith, parse_digits-lt s (acc * 10 + (c - b'0')) n)

-- What is parsed fits into a `u32`.
pub parse_u32-lt : (s : List ℕ) (n : ℕ) → parse_u32 s ≡ some n → n < u32_mod
unfolding parse_u32
parse_u32-lt s n e = ground (arith, parse_digits-lt (strip_plus s) 0 n)
