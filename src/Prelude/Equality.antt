-- ===== src/Prelude/Equality.antt =====
-- Equality tests, as an interface: the derived `PartialEq` of the Rust types that serve as keys.
use Prim.Native.Nat.{ℕ}
use Prim.Native.String.{String}
use mathlib.Core.Bool.{Bool, true, false, cond, Bool-discrete}
use mathlib.Core.Logic.{ite, dite, ◌⊎◌, inl, inr}
use mathlib.Core.Option.{Option, none, some}
use mathlib.Core.Path.{◌≡◌, refl, sym}
use native.Mathlib.Decide.{ℕ_discrete}
use native.Mathlib.Omega.{arith}
use text.Mathlib.Text
use text.Mathlib.TextEquality.{eq_iff}

infix 1 if◌then◌else◌
abbrev pub if◌then◌else◌ {ℓ} : {A : Type ℓ} → Bool → A → A → A
if b then x else y = cond b x y

pub record Eq {ℓ} (A : Type ℓ) : Type ℓ where
  pub dec : Discrete A

module _ {ℓ} {A : Type ℓ} ⦃e : Eq A⦄ where
  infix 50 ◌==◌
  abbrev pub ◌==◌ : A → A → Bool
  a == b = ite (e.dec a b) true false

  pub ==_refl : (a : A) → (a == a) ≡ true
  ==_refl a = ground arith

  pub ==_eq : (a b : A) → (a == b) ≡ true → a ≡ b
  ==_eq a b h = ground arith

unfoldable pub str_dec : Discrete String
str_dec s t =
    dite (Bool-discrete (Text.◌==◌ s t) true) (λ same. yes ((eq_iff s t).0 same))
      (λ differ. no (λ p. differ ((eq_iff s t).1 p)))

instance abbrev pub string_eq : Eq String
string_eq = record { dec = str_dec }

instance abbrev pub nat_eq : Eq ℕ
nat_eq = record { dec = ℕ_discrete }

pub none-some {ℓ} : {A : Type ℓ} (a : A) → ¬ (none ≡ some a)
none-some a p = ground arith

pub some-inj {ℓ} : {A : Type ℓ} (a b : A) → some a ≡ some b → a ≡ b
some-inj a b p = ground arith

module _ {ℓ} {A : Type ℓ} ⦃e : Eq A⦄ where
  unfoldable pub Option-discrete : Discrete (Option A)
  Option-discrete none none = yes refl
  Option-discrete none (some b) = no (none-some b)
  Option-discrete (some a) none = no (λ p. none-some a (sym p))
  Option-discrete (some a) (some b) =
      dite (e.dec a b) (λ same. yes (λ i. some (same i)))
        (λ differ. no (λ p. differ (some-inj a b p)))

-- To split on a computed test and keep the equation.
pub Bool-cases : (b : Bool) → (b ≡ true) ⊎ (b ≡ false)
Bool-cases true = inl refl
Bool-cases false = inr refl

pub Option-cases {ℓ} : {A : Type ℓ} (o : Option A) → (o ≡ none) ⊎ ((a : A) × (o ≡ some a))
Option-cases none = inl refl
Option-cases (some a) = inr (a, refl)
