-- ===== src/Base/Lists.antt =====
-- Lists: Boolean membership, maps that may skip, the library's operations over native numbers.
use Prim.Native.Nat.{ℕ, zero, suc, ◌-◌, ◌≤◌}
use mathlib.Core.Path.{◌≡◌, refl, ap, subst}
use mathlib.Core.Logic.{inl, inr}
use mathlib.Core.Bool.{Bool, true, false, ◌&&◌, ◌||◌}
use mathlib.Core.Option.{Option, none, some}
use mathlib.Core.List.{List, [], ◌∷◌, ◌++◌}
use native.Mathlib.Omega.{arith}
use spa_server.Base.Tests.{Bool-cases, Option-cases}
use spa_server.Base.Equality.{Eq, ◌==◌, if◌then◌else◌}

module _ {ℓ} {A : Type ℓ} where
  abbrev pub length : List A → ℕ
  length [] = 0
  length (x ∷ xs) = suc (length xs)

  abbrev pub take : ℕ → List A → List A
  take zero xs = []
  take (suc n) [] = []
  take (suc n) (x ∷ xs) = x ∷ take n xs

  abbrev pub drop : ℕ → List A → List A
  drop zero xs = xs
  drop (suc n) [] = []
  drop (suc n) (x ∷ xs) = drop n xs

  -- `Option::unwrap_or`
  abbrev pub unwrap_or : Option A → A → A
  unwrap_or none d = d
  unwrap_or (some a) d = a

  abbrev pub is_some : Option A → Bool
  is_some none = false
  is_some (some _) = true

  abbrev pub is_empty : List A → Bool
  is_empty [] = true
  is_empty (_ ∷ _) = false

  -- `Option::or`
  abbrev pub or : Option A → Option A → Option A
  or none b = b
  or (some a) _ = some a

  -- `Iterator::filter` into a `Vec`
  abbrev pub filter : (A → Bool) → List A → List A
  filter p [] = []
  filter p (x ∷ xs) = let rest = filter p xs in if p x then x ∷ rest else rest

  -- `Iterator::find`
  abbrev pub find : (A → Bool) → List A → Option A
  find p [] = none
  find p (x ∷ xs) = if p x then some x else find p xs

  abbrev pub prepend : Option A → List A → List A
  prepend none xs = xs
  prepend (some x) xs = x ∷ xs

module _ {ℓ κ} {A : Type ℓ} {B : Type κ} where
  -- `Iterator::filter_map` into a `Vec`
  abbrev pub filter_map : (A → Option B) → List A → List B
  filter_map f [] = []
  filter_map f (x ∷ xs) = prepend (f x) (filter_map f xs)

  -- `Option::map`, `Option::and_then`
  abbrev pub map_some : (A → B) → Option A → Option B
  map_some f none = none
  map_some f (some a) = some (f a)

  abbrev pub and_then : Option A → (A → Option B) → Option B
  and_then none f = none
  and_then (some a) f = f a

module _ {ℓ} {A : Type ℓ} ⦃e : Eq A⦄ where
  abbrev pub contains : List A → A → Bool
  contains [] a = false
  contains (x ∷ xs) a = a == x || contains xs a

  pub contains-filter :
      (p : A → Bool) (xs : List A) (a : A) → contains (filter p xs) a ≡ (contains xs a && p a)
  contains-filter p [] a = refl
  contains-filter p (x ∷ xs) a = ground (arith, contains-filter p xs a)

module _ {ℓ κ} {A : Type ℓ} {B : Type κ} ⦃d : Eq A⦄ ⦃e : Eq B⦄ where
  pub contains-filter_map :
      (f : A → Option B) (xs : List A) (a : A) (b : B)
      → contains xs a ≡ true
      → f a ≡ some b
      → contains (filter_map f xs) b ≡ true
  contains-filter_map f [] a b h k = h
  contains-filter_map f (x ∷ xs) a b h k = ground (arith, contains-filter_map f xs a b)

  pub filter_map-contains :
      (f : A → Option B) (xs : List A) (b : B)
      → contains (filter_map f xs) b ≡ true
      → (a : A) × (contains xs a ≡ true) × (f a ≡ some b)
  filter_map-contains f [] b h = ground arith
  filter_map-contains f (x ∷ xs) b h = elim (Option-cases (f x)) [
    | inl skipped ↦
        let (a, m, e) = filter_map-contains f xs b (rw skipped at h) in (a, ground arith, e)
    | inr (y, kept) ↦ elim (Bool-cases (b == y)) [
      | inl same ↦ (x, ground arith, ground arith)
      | inr other ↦
          let (a, m, e) = filter_map-contains f xs b (ground arith) in (a, ground arith, e)
    ]
  ]

module _ {ℓ} {A : Type ℓ} where
  pub length-drop : (n : ℕ) (xs : List A) → length (drop n xs) ≡ length xs - n
  length-drop zero xs = omega arith
  length-drop (suc n) [] = omega arith
  length-drop (suc n) (x ∷ xs) = omega (arith, length-drop n xs)

  pub length-take : (n : ℕ) (xs : List A) → n ≤ length xs → length (take n xs) ≡ n
  length-take zero xs h = refl
  length-take (suc n) [] h = omega arith
  length-take (suc n) (x ∷ xs) h = omega (arith, length-take n xs)

  pub take_all : (n : ℕ) (xs : List A) → length xs ≤ n → take n xs ≡ xs
  take_all zero [] h = refl
  take_all zero (x ∷ xs) h = absurd (omega arith)
  take_all (suc n) [] h = refl
  take_all (suc n) (x ∷ xs) h = ap (λ (t : List A). x ∷ t) (take_all n xs (omega arith))

  pub take-append-drop : (n : ℕ) (xs : List A) → take n xs ++ drop n xs ≡ xs
  take-append-drop zero xs = refl
  take-append-drop (suc n) [] = refl
  take-append-drop (suc n) (x ∷ xs) = ap (λ (t : List A). x ∷ t) (take-append-drop n xs)

-- A property of every element.
abbrev pub All {ℓ κ} : {A : Type ℓ} → (A → Type κ) → List A → Type κ
All P [] = Unit
All P (x ∷ xs) = P x × All P xs

pub All-map {ℓ κ} :
    {A : Type ℓ} (P Q : A → Type κ) (xs : List A) → ((x : A) → P x → Q x) → All P xs → All Q xs
All-map P Q [] h all = tt
All-map P Q (x ∷ xs) h all = (h x all.0, All-map P Q xs h all.1)

All-prepend {ℓ κ} :
    {A : Type ℓ} (P : A → Type κ) (o : Option A) (xs : List A) → All P (prepend o xs) → All P xs
All-prepend P none xs all = all
All-prepend P (some x) xs all = all.1

pub All-filter_map {ℓ κ ι} :
    {A : Type ℓ} {B : Type κ} ⦃e : Eq A⦄ (P : B → Type ι) (f : A → Option B) (xs : List A) (x : A)
    (y : B)
    → All P (filter_map f xs)
    → contains xs x ≡ true
    → f x ≡ some y
    → P y
All-filter_map P f [] x y all m h = absurd (ground arith)
All-filter_map P f (z ∷ xs) x y all m h = elim (Bool-cases (x == z)) [
  | inl same ↦
      let made : f z ≡ some y = ground arith in
      (subst (λ o. All P (prepend o (filter_map f xs))) made all).0
  | inr other ↦
      All-filter_map P f xs x y (All-prepend P (f z) (filter_map f xs) all) (ground arith) h
]
