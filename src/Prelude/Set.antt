-- ===== src/Prelude/Set.antt =====
-- A `HashSet` as a list without repetitions. Only membership is observed through these operations.
use distribd.Prelude.Equality.{Eq, ◌==◌, if◌then◌else◌}
use mathlib.Core.Bool.{Bool, true, false, ◌||◌}
use mathlib.Core.List.{List, [], ◌∷◌}
use mathlib.Core.Path.{◌≡◌, refl}
use native.Mathlib.Omega.{arith}

abbrev pub is_empty {ℓ} : {A : Type ℓ} → List A → Bool
is_empty [] = true
is_empty (x ∷ xs) = false

module _ {ℓ} {A : Type ℓ} ⦃e : Eq A⦄ where
  unfoldable pub contains : List A → A → Bool
  contains [] a = false
  contains (x ∷ s) a = if x == a then true else contains s a

  unfoldable pub insert : A → List A → List A
  unfolding contains
  insert a s = if contains s a then s else a ∷ s

  unfoldable pub remove : A → List A → List A
  remove a [] = []
  remove a (x ∷ s) = let rest = remove a s in if x == a then rest else x ∷ rest

  unfoldable pub extend : List A → List A → List A
  unfolding insert
  extend [] s = s
  extend (a ∷ more) s = extend more (insert a s)

  pub contains-nil : (a : A) → contains [] a ≡ false
  unfolding contains
  contains-nil a = refl

  pub contains-cons :
      (x a : A) (s : List A) → contains (x ∷ s) a ≡ (if x == a then true else contains s a)
  unfolding contains
  contains-cons x a s = refl

  pub contains-insert :
      (a b : A) (s : List A) → contains (insert a s) b ≡ (if a == b then true else contains s b)
  unfolding insert
  contains-insert a b s = ground arith

  pub contains-remove :
      (a b : A) (s : List A) → contains (remove a s) b ≡ (if a == b then false else contains s b)
  unfolding remove contains
  contains-remove a b [] = ground arith
  contains-remove a b (x ∷ s) = ground (arith, contains-remove a b s)

  pub contains-extend :
      (xs s : List A) (b : A) → contains (extend xs s) b ≡ (contains xs b || contains s b)
  unfolding extend contains
  contains-extend [] s b = refl
  contains-extend (x ∷ xs) s b =
      ground (arith, contains-extend xs (insert x s) b, contains-insert x b s)

pub ruleset set_laws = (contains-nil, contains-insert, contains-remove)
