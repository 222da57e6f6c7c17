-- ===== src/Orphans/Reach.antt =====
-- The worklist of `get_orphaned_blobs` against an inductive reading of "referred to".
use distribd.Prelude.{
  length, filter, ℕ, ◌+◌, ◌≤◌, ◌<◌, Option, none, some, List, [], ◌∷◌, ◌++◌, if◌then◌else◌, Bool,
  true, false, ◌||◌, ◌≡◌, refl, arith,
}
use distribd.Prelude.Set
use distribd.Prelude.Set.{
  contains-nil, contains-insert, contains-remove, contains-extend, contains-cons,
}
use distribd.Prelude.Map
use distribd.Prelude.Map.{Map}
use distribd.Types.{digest_eq, Digest}
use distribd.StateMachine.{Tree}
use distribd.Orphans.{or_nothing, dependencies_of, blob_dependencies}

-- The digests that a manifest depends on, directly or through the dependencies of blobs.
pub data Reach (start : List Digest) (blobs : Tree) : Digest → Type 0 where
  root : {d : Digest} → Set.contains start d ≡ true → Reach start blobs d
  through :
      {d d' : Digest}
      → Reach start blobs d
      → Set.contains (dependencies_of (Map.lookup d blobs)) d' ≡ true
      → Reach start blobs d'

-- What `HashSet`'s iterator promises of its first element.
pub record Picks (pick : List Digest → Option Digest) : Type 0 where
  pub member : (s : List Digest) (d : Digest) → pick s ≡ some d → Set.contains s d ≡ true
  pub nothing : (s : List Digest) → pick s ≡ none → s ≡ []

pub contains-filter :
    (test : Digest → Bool) (xs : List Digest) (d : Digest)
    → Set.contains (filter test xs) d ≡ (if test d then Set.contains xs d else false)
unfolding Set.contains
contains-filter test [] d = ground arith
contains-filter test (x ∷ xs) d = ground (arith, contains-filter test xs d)

pub contains-append :
    (xs ys : List Digest) (d : Digest)
    → Set.contains (xs ++ ys) d ≡ (Set.contains xs d || Set.contains ys d)
unfolding Set.contains
contains-append [] ys d = refl
contains-append (x ∷ xs) ys d = ground (arith, contains-append xs ys d)

-- the digests of a list that are not yet visited
abbrev pub missing : List Digest → List Digest → ℕ
missing [] visited = 0
missing (x ∷ xs) visited = (if Set.contains visited x then 0 else 1) + missing xs visited

missing-le :
    (xs visited : List Digest) (d : Digest) → missing xs (Set.insert d visited) ≤ missing xs visited
missing-le [] visited d = omega arith
missing-le (x ∷ xs) visited d = ground (arith, missing-le xs visited d, contains-insert d x visited)

pub missing-lt :
    (xs visited : List Digest) (d : Digest)
    → Set.contains xs d ≡ true
    → Set.contains visited d ≡ false
    → missing xs (Set.insert d visited) < missing xs visited
unfolding Set.contains
missing-lt [] visited d m v = absurd (ground arith)
missing-lt (x ∷ xs) visited d m v =
    ground (arith, missing-le xs visited d, missing-lt xs visited d, contains-insert d x visited)

pub missing-nil : (xs : List Digest) → missing xs [] ≤ length xs
unfolding Set.contains
missing-nil [] = omega arith
missing-nil (x ∷ xs) = ground (arith, missing-nil xs)

pub dependencies-known :
    (blobs : Tree) (d d' : Digest)
    → Set.contains (dependencies_of (Map.lookup d blobs)) d' ≡ true
    → Set.contains (blob_dependencies blobs) d' ≡ true
unfolding Map.lookup
dependencies-known [] d d' h = h
dependencies-known ((k, a) ∷ blobs) d d' h = ground (
  arith,
  contains-append (or_nothing a.dependencies) (blob_dependencies blobs) d',
  dependencies-known blobs d d',
)
