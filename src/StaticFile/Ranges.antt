-- ===== src/StaticFile/Ranges.antt =====
-- server/src/static_file_filter.rs: what `bytes_range` grants.
use spa_server.Base.{ℕ, ◌+◌, ◌-◌, ◌≤◌, ◌<◌, ◌≡◌, Option, none, some, [], ◌∷◌, arith, nat_eq, length}
use spa_server.Base.{drop, length-drop, length-take, take_all}
use spa_server.Base.Text.{Text}
use spa_server.Http.{unbounded, included, Range}
use spa_server.StaticFile.{bytes_range, slice, u64_mod}

-- A granted range lies within the file, and is not turned round.
pub bytes_range_bounds :
    (range : Option Range) (len start stop : ℕ)
    → bytes_range range len ≡ some (start, stop)
    → (start ≤ stop) × (stop ≤ len)
unfolding bytes_range
bytes_range_bounds none len start stop h = ground arith
bytes_range_bounds (some []) len start stop h = ground arith
bytes_range_bounds (some ((from, to) ∷ rest)) len start stop h = ground arith

-- The first and the last byte are named, and both lie in the file.
pub bytes_range-included :
    (from to len : ℕ) (rest : Range)
    → from ≤ to
    → to < len
    → len < u64_mod
    → bytes_range (some ((included from, included to) ∷ rest)) len ≡ some (from, to + 1)
unfolding bytes_range
bytes_range-included from to len rest h k b = ground arith

pub bytes_range-from :
    (from len : ℕ) (rest : Range)
    → from < len
    → bytes_range (some ((included from, unbounded) ∷ rest)) len ≡ some (from, len)
unfolding bytes_range
bytes_range-from from len rest h = ground arith

pub length-slice :
    (start stop : ℕ) (s : Text)
    → start ≤ stop
    → stop ≤ length s
    → length (slice start stop s) ≡ stop - start
length-slice start stop s h k =
    length-take (stop - start) (drop start s) (omega (arith, length-drop start s))

pub slice_all : (s : Text) → slice 0 (length s) s ≡ s
slice_all s = take_all (length s - 0) s (omega arith)

-- A slice as long as the text is the text.
pub slice_whole :
    (start stop : ℕ) (s : Text)
    → start ≤ stop
    → stop ≤ length s
    → stop - start ≡ length s
    → slice start stop s ≡ s
slice_whole start stop s h k e =
    let from : start ≡ 0 = omega arith in
    let to : stop ≡ length s = omega arith in rw (from, to) (slice_all s)
