-- ===== src/StateMachine/Artifacts.antt =====
-- What each action does to the tree, one digest at a time: the entry of the action's digest makes
-- one step of `change`, and the entry of every other digest stays as it was.
use distribd.Prelude.{
  ℕ, String, Option, none, some, List, [], ◌∷◌, Outcome, ok, panic, if◌then◌else◌, ◌≡◌, ◌==◌, arith,
  nat_eq,
}
use distribd.Prelude.Set
use distribd.Prelude.Map
use distribd.Prelude.Map.{lookup-insert, lookup-remove}
use distribd.Types.{
  digest_eq, repository_eq, Digest, RepositoryName, Artifact, RegistryAction, blob_stored,
  blob_unstored, blob_mounted, blob_unmounted, blob_info, blob_stat, manifest_stored,
  manifest_unstored, manifest_mounted, manifest_unmounted, manifest_info, manifest_stat,
}
use distribd.StateMachine.{Tree, stored, unstored, mounted, unmounted, info, stat}

-- The six kinds of change to one artifact.
pub data Change : Type 0 where
  stores unstores : (timestamp location : ℕ) → Change
  mounts unmounts : (timestamp : ℕ) (repository : RepositoryName) → Change
  informs : (timestamp : ℕ) (dependencies : List Digest) (content_type : String) → Change
  measures : (timestamp size : ℕ) → Change

-- What a change does to the entry of its digest, `none` being no entry.
unfoldable pub change : Change → Option Artifact → Outcome (Option Artifact)
change (stores t l) none = panic
change (stores t l) (some a) =
    ok (some (record a { updated = t; locations = Set.insert l a.locations }))
change (unstores t l) none = ok none
change (unstores t l) (some a) =
    let left = Set.remove l a.locations in
    ok (if Set.is_empty left then none else some (record a { updated = t; locations = left }))
change (mounts t r) none = ok (
    some (record {
      created = t;
      updated = t;
      content_type = none;
      size = none;
      dependencies = some [];
      locations = [];
      repositories = r ∷ [];
    }))
change (mounts t r) (some a) =
    ok (some (record a { updated = t; repositories = Set.insert r a.repositories }))
change (unmounts t r) none = ok none
change (unmounts t r) (some a) =
    ok (some (record a { updated = t; repositories = Set.remove r a.repositories }))
change (informs t ds c) none = ok none
change (informs t ds c) (some a) =
    ok (some (record a { updated = t; dependencies = some ds; content_type = some c }))
change (measures t n) none = ok none
change (measures t n) (some a) = ok (some (record a { updated = t; size = some n }))

-- Which blob an action is about, and which manifest.
abbrev pub blob_change : RegistryAction → Option (Digest × Change)
blob_change (blob_stored t d l u) = some (d, stores t l)
blob_change (blob_unstored t d l u) = some (d, unstores t l)
blob_change (blob_mounted t d r u) = some (d, mounts t r)
blob_change (blob_unmounted t d r u) = some (d, unmounts t r)
blob_change (blob_info t d ds c) = some (d, informs t ds c)
blob_change (blob_stat t d n) = some (d, measures t n)
blob_change _ = none

abbrev pub manifest_change : RegistryAction → Option (Digest × Change)
manifest_change (manifest_stored t d l u) = some (d, stores t l)
manifest_change (manifest_unstored t d l u) = some (d, unstores t l)
manifest_change (manifest_mounted t d r u) = some (d, mounts t r)
manifest_change (manifest_unmounted t d r u) = some (d, unmounts t r)
manifest_change (manifest_info t d ds c) = some (d, informs t ds c)
manifest_change (manifest_stat t d n) = some (d, measures t n)
manifest_change _ = none

-- One action seen from the digest `d`.
abbrev pub change_at :
    Digest → Option (Digest × Change) → Option Artifact → Outcome (Option Artifact)
change_at d none o = ok o
change_at d (some (d', c)) o = if d' == d then change c o else ok o

module _ (t : ℕ) (d : Digest) (tree : Tree) (d' : Digest) where
  pub lookup-stored :
      (l : ℕ) (tree' : Tree)
      → stored t d l tree ≡ ok tree'
      → change_at d' (some (d, stores t l)) (Map.lookup d' tree) ≡ ok (Map.lookup d' tree')
  unfolding stored change
  lookup-stored l tree' h = grind (arith, lookup-insert {V = Artifact} d d')

  pub lookup-unstored :
      (l : ℕ)
      → change_at d' (some (d, unstores t l)) (Map.lookup d' tree)
        ≡ ok (Map.lookup d' (unstored t d l tree))
  unfolding unstored change
  lookup-unstored l = grind (arith, lookup-insert {V = Artifact} d d', lookup-remove d d' tree)

  pub lookup-mounted :
      (r : RepositoryName)
      → change_at d' (some (d, mounts t r)) (Map.lookup d' tree)
        ≡ ok (Map.lookup d' (mounted t d r tree))
  unfolding mounted change Set.insert
  lookup-mounted r = grind (arith, lookup-insert {V = Artifact} d d')

  pub lookup-unmounted :
      (r : RepositoryName)
      → change_at d' (some (d, unmounts t r)) (Map.lookup d' tree)
        ≡ ok (Map.lookup d' (unmounted t d r tree))
  unfolding unmounted change
  lookup-unmounted r = grind (arith, lookup-insert {V = Artifact} d d')

  pub lookup-info :
      (ds : List Digest) (c : String)
      → change_at d' (some (d, informs t ds c)) (Map.lookup d' tree)
        ≡ ok (Map.lookup d' (info t d ds c tree))
  unfolding info change
  lookup-info ds c = grind (arith, lookup-insert {V = Artifact} d d')

  pub lookup-stat :
      (n : ℕ)
      → change_at d' (some (d, measures t n)) (Map.lookup d' tree)
        ≡ ok (Map.lookup d' (stat t d n tree))
  unfolding stat change
  lookup-stat n = grind (arith, lookup-insert {V = Artifact} d d')
