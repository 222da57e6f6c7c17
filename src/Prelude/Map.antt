-- ===== src/Prelude/Map.antt =====
-- A `BTreeMap`, a `HashMap` or a sled tree as an association list, with at most one entry that is
-- found for a key.
use distribd.Prelude.Equality.{Eq, ◌==◌, if◌then◌else◌}
use mathlib.Core.Bool.{Bool}
use mathlib.Core.List.{List, [], ◌∷◌}
use mathlib.Core.Option.{Option, none, some}
use mathlib.Core.Path.{◌≡◌, refl}
use native.Mathlib.Omega.{arith}

abbrev pub Map {ℓ κ} : Type ℓ → Type κ → Type (ℓ ⊔ κ)
Map K V = List (K × V)

-- the second value where there is no first one
abbrev pub or_else {κ} : {V : Type κ} → Option V → Option V → Option V
or_else none old = old
or_else (some v) old = some v

module _ {ℓ κ} {K : Type ℓ} {V : Type κ} ⦃e : Eq K⦄ where
  unfoldable pub lookup : K → Map K V → Option V
  lookup k [] = none
  lookup k ((j, v) ∷ m) = if j == k then some v else lookup k m

  unfoldable pub insert : K → V → Map K V → Map K V
  insert k v [] = (k, v) ∷ []
  insert k v ((j, w) ∷ m) = let rest = insert k v m in if j == k then (k, v) ∷ m else (j, w) ∷ rest

  unfoldable pub remove : K → Map K V → Map K V
  remove k [] = []
  remove k ((j, w) ∷ m) = let rest = remove k m in if j == k then rest else (j, w) ∷ rest

  -- `insert` of every entry of a list, the first one first
  unfoldable pub insert_all : Map K V → Map K V → Map K V
  unfolding insert
  insert_all [] m = m
  insert_all ((k, v) ∷ more) m = insert_all more (insert k v m)

  pub lookup-nil : (k : K) → lookup k [] ≡ none
  unfolding lookup
  lookup-nil k = refl

  pub lookup-insert :
      (k j : K) (v : V) (m : Map K V)
      → lookup j (insert k v m) ≡ (if k == j then some v else lookup j m)
  unfolding lookup insert
  lookup-insert k j v [] = ground arith
  lookup-insert k j v ((i, w) ∷ m) = ground (arith, lookup-insert k j v m)

  pub lookup-remove :
      (k j : K) (m : Map K V) → lookup j (remove k m) ≡ (if k == j then none else lookup j m)
  unfolding lookup remove
  lookup-remove k j [] = ground arith
  lookup-remove k j ((i, w) ∷ m) = ground (arith, lookup-remove k j m)

  -- `BTreeMap::retain`, for a test of the key
  unfoldable pub retain : (K → Bool) → Map K V → Map K V
  retain test [] = []
  retain test ((j, w) ∷ m) = let rest = retain test m in if test j then (j, w) ∷ rest else rest

  pub lookup-retain :
      (test : K → Bool) (k : K) (m : Map K V)
      → lookup k (retain test m) ≡ (if test k then lookup k m else none)
  unfolding lookup retain
  lookup-retain test k [] = ground arith
  lookup-retain test k ((j, w) ∷ m) = ground (arith, lookup-retain test k m)

  abbrev pub HasUniqueKeys : Map K V → Type κ
  HasUniqueKeys [] = Unit
  HasUniqueKeys ((k, v) ∷ m) = (lookup k m ≡ none) × HasUniqueKeys m

  pub insert-HasUniqueKeys :
      (k : K) (v : V) (m : Map K V) → HasUniqueKeys m → HasUniqueKeys (insert k v m)
  unfolding insert lookup
  insert-HasUniqueKeys k v [] u = (refl, tt)
  insert-HasUniqueKeys k v ((j, w) ∷ m) u =
      ground (arith, lookup-insert k j v m, insert-HasUniqueKeys k v m u.1)

  pub remove-HasUniqueKeys : (k : K) (m : Map K V) → HasUniqueKeys m → HasUniqueKeys (remove k m)
  unfolding remove lookup
  remove-HasUniqueKeys k [] u = tt
  remove-HasUniqueKeys k ((j, w) ∷ m) u =
      ground (arith, lookup-remove k j m, remove-HasUniqueKeys k m u.1)

  pub lookup-insert_all :
      (k : K) (rows m : Map K V)
      → HasUniqueKeys rows
      → lookup k (insert_all rows m) ≡ or_else (lookup k rows) (lookup k m)
  unfolding insert_all lookup
  lookup-insert_all k [] m u = refl
  lookup-insert_all k ((j, w) ∷ rows) m u =
      ground (arith, lookup-insert_all k rows (insert j w m) u.1, lookup-insert j k w m)

  pub insert_all-HasUniqueKeys :
      (rows m : Map K V) → HasUniqueKeys m → HasUniqueKeys (insert_all rows m)
  unfolding insert_all
  insert_all-HasUniqueKeys [] m u = u
  insert_all-HasUniqueKeys ((j, w) ∷ rows) m u =
      insert_all-HasUniqueKeys rows (insert j w m) (insert-HasUniqueKeys j w m u)

  pub retain-HasUniqueKeys :
      (test : K → Bool) (m : Map K V) → HasUniqueKeys m → HasUniqueKeys (retain test m)
  unfolding retain lookup
  retain-HasUniqueKeys test [] u = tt
  retain-HasUniqueKeys test ((j, w) ∷ m) u =
      ground (arith, lookup-retain test j m, retain-HasUniqueKeys test m u.1)

  abbrev pub AllRows {μ} : (K → V → Type μ) → Map K V → Type μ
  AllRows P [] = Unit
  AllRows P ((k, v) ∷ m) = P k v × AllRows P m

  pub AllRows-mono {μ ν} :
      (P : K → V → Type μ) (Q : K → V → Type ν) (m : Map K V)
      → ((k : K) (v : V) → P k v → Q k v)
      → AllRows P m
      → AllRows Q m
  AllRows-mono P Q [] f p = tt
  AllRows-mono P Q ((k, v) ∷ m) f p = (f k v p.0, AllRows-mono P Q m f p.1)

  -- every row is found under its key
  pub rows_found : (m : Map K V) → HasUniqueKeys m → AllRows (λ k v. lookup k m ≡ some v) m
  unfolding lookup
  rows_found [] u = tt
  rows_found ((k, v) ∷ m) u = (
    ground arith,
    AllRows-mono (λ j w. lookup j m ≡ some w) (λ j w. lookup j ((k, v) ∷ m) ≡ some w) m
        (λ j w h. ground (arith, u.0)) (rows_found m u.1),
  )

pub ruleset map_laws = (lookup-nil, lookup-insert, lookup-remove)
