-- ===== src/Base/Text/Replace.antt =====
-- `str::replace`: the first match at the front.
use spa_server.Base.{◌≡◌, ◌≢◌, refl, true, [], ◌∷◌, ◌++◌, arith, nat_eq, list_eq}
use spa_server.Base.{length}
use spa_server.Base.Text.{Text, replace, replace_from, starts_with}

starts_with-append : (p r : Text) → starts_with (p ++ r) p ≡ true
unfolding starts_with
starts_with-append [] r = ground arith
starts_with-append (c ∷ p) r = ground (arith, starts_with-append p r)

skip-append :
    (from to p r : Text) → replace_from (length p) from to (p ++ r) ≡ replace_from 0 from to r
unfolding replace_from
skip-append from to [] r = refl
skip-append from to (c ∷ p) r = skip-append from to p r

-- The first match is at the front.
pub replace-append : (p r to : Text) → p ≢ [] → replace (p ++ r) p to ≡ to ++ replace r p to
unfolding replace replace_from
replace-append [] r to h = absurd (h refl)
replace-append (c ∷ p) r to h =
    ground (arith, starts_with-append (c ∷ p) r, skip-append (c ∷ p) to p r)
