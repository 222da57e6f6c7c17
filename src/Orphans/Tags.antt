-- ===== src/Orphans/Tags.antt =====
-- `get_orphaned_manifests` against the tags: a manifest is an orphan when no tag names it.
use distribd.Prelude.{
  none, some, List, [], ◌∷◌, if◌then◌else◌, true, not, ◌≡◌, arith, ◌⊎◌, inl, inr, Bool-cases, ◌==◌,
  map,
}
use distribd.Prelude.Set
use distribd.Prelude.Set.{contains-nil, contains-extend}
use distribd.Prelude.Map
use distribd.Prelude.Map.{Map, HasUniqueKeys, lookup-retain}
use distribd.Types.{digest_eq, tag_key_eq, Digest, TagKey}
use distribd.StateMachine.{Db}
use distribd.Orphans.{tagged, get_orphaned_manifests}

abbrev digests_of : Map TagKey Digest → List Digest
digests_of = map (λ (row : TagKey × Digest). row.1)

listed :
    (tags : Map TagKey Digest) (k : TagKey) (d : Digest)
    → Map.lookup k tags ≡ some d
    → Set.contains (digests_of tags) d ≡ true
unfolding Map.lookup Set.contains
listed [] k d h = absurd (ground arith)
listed ((j, e) ∷ tags) k d h = ground (arith, listed tags k d)

found :
    (tags : Map TagKey Digest) (d : Digest)
    → HasUniqueKeys tags
    → Set.contains (digests_of tags) d ≡ true
    → (k : TagKey) × (Map.lookup k tags ≡ some d)
unfolding Map.lookup Set.contains
found [] d u h = absurd (ground arith)
found ((j, e) ∷ tags) d u h = elim (Bool-cases (e == d)) [
  | inl here ↦ (j, ground arith)
  | inr there ↦ let (k, p) = found tags d u.1 (ground arith) in (k, ground (arith, u.0))
]

-- some tag names the digest
abbrev pub Tagged : Db → Digest → Type 0
Tagged db d = (k : TagKey) × (Map.lookup k db.tags ≡ some d)

-- Of each manifest the search for orphans drops it exactly when some tag names it, and otherwise
-- keeps it as it is.
pub get_orphaned_manifests-Tagged :
    (db : Db) (d : Digest)
    → HasUniqueKeys db.tags
    → (Tagged db d × (Map.lookup d (get_orphaned_manifests db) ≡ none))
      ⊎ ((¬ Tagged db d) × (Map.lookup d (get_orphaned_manifests db) ≡ Map.lookup d db.manifests))
unfolding get_orphaned_manifests
get_orphaned_manifests-Tagged db d u = elim (Bool-cases (Set.contains (digests_of db.tags) d)) [
  | inl h ↦ inl (found db.tags d u h, ground (arith, h, kept, every))
  | inr h ↦ inr (λ (k, p). cc (h, listed db.tags k d p), ground (arith, h, kept, every))
]
  where
    kept :
        Map.lookup d (get_orphaned_manifests db)
        ≡ (if not (Set.contains (tagged db) d) then Map.lookup d db.manifests else none)
    kept = lookup-retain (λ k. not (Set.contains (tagged db) k)) d db.manifests

    every : Set.contains (tagged db) d ≡ Set.contains (digests_of db.tags) d
    every = ground (arith, contains-extend (digests_of db.tags) [] d, contains-nil d)
