-- ===== src/Prelude/Lists.antt =====
-- Lists measured by native numbers, and predicates on all of their elements.
use Prim.Native.Nat.{ℕ, suc, ◌+◌, compare, Ordering}
use mathlib.Core.Bool.{Bool, true, false, cond}
use mathlib.Core.List.{List, [], ◌∷◌, ◌++◌}
use mathlib.Core.Logic.{◌⊎◌, inl, inr}
use mathlib.Core.Path.{◌≡◌, subst}
use native.Mathlib.Omega.{arith}

abbrev pub ltb : ℕ → ℕ → Bool
ltb a b = elim (compare a b) [ Ordering.lt ↦ true | _ ↦ false ]

abbrev pub leb : ℕ → ℕ → Bool
leb a b = elim (compare a b) [ Ordering.gt ↦ false | _ ↦ true ]

module _ {ℓ} {A : Type ℓ} where
  abbrev pub length : List A → ℕ
  length [] = 0
  length (x ∷ xs) = suc (length xs)

  pub length-append : (xs ys : List A) → length (xs ++ ys) ≡ length xs + length ys
  length-append [] ys = omega arith
  length-append (x ∷ xs) ys = omega (arith, length-append xs ys)

  abbrev pub filter : (A → Bool) → List A → List A
  filter test [] = []
  filter test (x ∷ xs) = let rest = filter test xs in cond (test x) (x ∷ rest) rest

-- `a` is one of the elements
pub data In {ℓ} {A : Type ℓ} (a : A) : List A → Type ℓ where
  head : {x : A} {xs : List A} → x ≡ a → In a (x ∷ xs)
  tail : {x : A} {xs : List A} → In a xs → In a (x ∷ xs)

module _ {ℓ} {A : Type ℓ} where
  pub In-append_left : {a : A} {xs : List A} (ys : List A) → In a xs → In a (xs ++ ys)
  In-append_left ys (head e) = head e
  In-append_left ys (tail h) = tail (In-append_left ys h)

  pub In-append_right : {a : A} (xs : List A) {ys : List A} → In a ys → In a (xs ++ ys)
  In-append_right [] h = h
  In-append_right (x ∷ xs) h = tail (In-append_right xs h)

  pub In-append_cases : {a : A} (xs : List A) {ys : List A} → In a (xs ++ ys) → In a xs ⊎ In a ys
  In-append_cases [] h = inr h
  In-append_cases (x ∷ xs) (head e) = inl (head e)
  In-append_cases (x ∷ xs) (tail h) = elim (In-append_cases xs h) [
    | inl left ↦ inl (tail left)
    | inr right ↦ inr right
  ]

module _ {ℓ} {A : Type ℓ} where
  -- no element twice
  abbrev pub AreOnce : List A → Type ℓ
  AreOnce [] = Unit
  AreOnce (x ∷ xs) = (¬ In x xs) × AreOnce xs

module _ {ℓ κ} {A : Type ℓ} where
  abbrev pub All : (A → Type κ) → List A → Type κ
  All P [] = Unit
  All P (x ∷ xs) = P x × All P xs

  pub All-append : (P : A → Type κ) (xs ys : List A) → All P xs → All P ys → All P (xs ++ ys)
  All-append P [] ys p q = q
  All-append P (x ∷ xs) ys p q = (p.0, All-append P xs ys p.1 q)

  pub All-In : (P : A → Type κ) (xs : List A) {x : A} → All P xs → In x xs → P x
  All-In P (y ∷ xs) all (head same) = subst P same all.0
  All-In P (y ∷ xs) all (tail later) = All-In P xs all.1 later
  All-In P [] all m = elim m [ ]

pub All-mono {ℓ κ μ} :
    {A : Type ℓ} (P : A → Type κ) (Q : A → Type μ) (xs : List A)
    → ((x : A) → P x → Q x)
    → All P xs
    → All Q xs
All-mono P Q [] f p = tt
All-mono P Q (x ∷ xs) f p = (f x p.0, All-mono P Q xs f p.1)
