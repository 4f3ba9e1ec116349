-- ===== src/Base/Equality.antt =====
-- Rust's `==`, for every type whose equality can be decided.
use Prim.Native.Nat.{ℕ}
use mathlib.Core.Path.{◌≡◌, refl, ap}
use mathlib.Core.Logic.{ite, dite}
use mathlib.Core.Bool.{Bool, true, false, cond}
use mathlib.Core.Option.{Option, none, some, none-ne-some, some-ne-none, some-injective}
use mathlib.Core.List.{List, [], ◌∷◌}
use native.Mathlib.Decide.{ℕ_discrete}
use native.Mathlib.Omega.{arith}

infix 1 if◌then◌else◌
abbrev pub if◌then◌else◌ {ℓ} : {A : Type ℓ} → Bool → A → A → A
if b then x else y = cond b x y

pub record Eq {ℓ} (A : Type ℓ) : Type ℓ where
  pub dec : Discrete A

infix 50 ◌==◌
abbrev pub ◌==◌ {ℓ} : {A : Type ℓ} ⦃e : Eq A⦄ → A → A → Bool
◌==◌ ⦃e⦄ a b = ite (e.dec a b) true false

pub ==-refl {ℓ} : {A : Type ℓ} ⦃e : Eq A⦄ (a : A) → (a == a) ≡ true
==-refl a = ground arith

pub eq_of_== {ℓ} : {A : Type ℓ} ⦃e : Eq A⦄ (a b : A) → (a == b) ≡ true → a ≡ b
eq_of_== a b h = ground arith

instance unfoldable pub nat_eq : Eq ℕ
unfolding ℕ_discrete
nat_eq = record { dec = ℕ_discrete }

module _ {ℓ} {A : Type ℓ} where
  head_eq : {a b : A} {s t : List A} → a ∷ s ≡ b ∷ t → a ≡ b
  head_eq p = cc

  tail_eq : {a b : A} {s t : List A} → a ∷ s ≡ b ∷ t → s ≡ t
  tail_eq p = cc

  nil-ne-cons : {a : A} {s : List A} → ¬ ([] ≡ a ∷ s)
  nil-ne-cons p = cc

  cons-ne-nil : {a : A} {s : List A} → ¬ (a ∷ s ≡ [])
  cons-ne-nil p = cc

  cons_eq : {a b : A} {s t : List A} → a ≡ b → s ≡ t → a ∷ s ≡ b ∷ t
  cons_eq p q = cc

module _ {ℓ} {A : Type ℓ} ⦃e : Eq A⦄ where
  option_dec : Discrete (Option A)
  option_dec none none = yes refl
  option_dec none (some b) = no (none-ne-some b)
  option_dec (some a) none = no (some-ne-none a)
  option_dec (some a) (some b) =
      dite (e.dec a b) (λ p. yes (ap some p)) (λ n. no (λ p. n (some-injective a b p)))

  instance unfoldable pub option_eq : Eq (Option A)
  unfolding option_dec
  option_eq = record { dec = option_dec }

  list_dec : Discrete (List A)
  list_dec [] [] = yes refl
  list_dec [] (b ∷ t) = no nil-ne-cons
  list_dec (a ∷ s) [] = no cons-ne-nil
  list_dec (a ∷ s) (b ∷ t) =
      dite (e.dec a b)
        (λ p. dite (list_dec s t) (λ q. yes (cons_eq p q)) (λ n. no (λ q. n (tail_eq q))))
        (λ n. no (λ q. n (head_eq q)))

  instance unfoldable pub list_eq : Eq (List A)
  unfolding list_dec nil-ne-cons cons-ne-nil head_eq tail_eq cons_eq
  list_eq = record { dec = list_dec }
