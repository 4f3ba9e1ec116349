-- ===== src/Base/Text.antt =====
-- `str` as its UTF-8 bytes, and the methods of the standard library that the program calls.
pub mod Decimal
pub mod Replace
use Prim.Native.Char.{code}
use Prim.Native.String.{String}
use spa_server.Base.{
  ℕ, zero, suc, ◌+◌, ◌*◌, ◌-◌, ◌/◌, ◌%◌, ◌^◌, ◌≡◌, refl, Bool, true, false, ◌&&◌, ◌||◌,
}
use spa_server.Base.{not, Option, none, some, List, [], ◌∷◌, ◌++◌, arith, ltb, leb, nat_eq}
use spa_server.Base.{◌==◌, if◌then◌else◌, length, drop, contains}

abbrev pub Text : Type 0
Text = List ℕ

-- The bytes of an ASCII literal.
abbrev pub codes : String → Text
codes String.[] = []
codes (String.◌∷◌ c s) = code c ∷ codes s

-- `str::starts_with`
unfoldable pub starts_with : Text → Text → Bool
starts_with s [] = true
starts_with [] (p ∷ ps) = false
starts_with (c ∷ s) (p ∷ ps) = c == p && starts_with s ps

-- `str::split(c)`: always at least one piece. The first piece is kept open in `cur`.
unfoldable pub split_from : ℕ → Text → Text → List Text
split_from sep cur [] = cur ∷ []
split_from sep cur (c ∷ s) =
    let closed = cur ∷ split_from sep [] s in
    let longer = split_from sep (cur ++ c ∷ []) s in if c == sep then closed else longer

unfoldable pub split : ℕ → Text → List Text
unfolding split_from
split sep s = split_from sep [] s

-- `s.split(c).last()`; `split` is never empty.
unfoldable pub last_piece : ℕ → Text → Text
unfolding split
last_piece sep s = go (split sep s)
  where
    go : List Text → Text
    go [] = []
    go (p ∷ []) = p
    go (p ∷ q ∷ ps) = go (q ∷ ps)

-- `s.replace(from, to)` with a pattern that is not empty: every match from left to right, none of
-- which overlaps another. A match is skipped by counting down its length.
unfoldable pub replace_from : ℕ → Text → Text → Text → Text
unfolding starts_with
replace_from skip from to [] = []
replace_from (suc skip) from to (c ∷ s) = replace_from skip from to s
replace_from zero from to (c ∷ s) =
    let matched = to ++ replace_from (length from - 1) from to s in
    let kept = c ∷ replace_from zero from to s in if starts_with (c ∷ s) from then matched else kept

unfoldable pub replace : Text → Text → Text → Text
unfolding replace_from
replace s from to = replace_from zero from to s
