-- ===== src/Garbage/Sweeps.antt =====
-- What the two sweeps put into their transactions.
use distribd.Prelude.{
  ℕ, ◌+◌, ◌≤◌, Option, some, List, [], ◌∷◌, ◌++◌, Bool, true, ◌≡◌, refl, arith, inl, inr,
  Bool-cases, All, All-append, subst,
}
use distribd.Prelude.Set
use distribd.Prelude.Set.{contains-cons}
use distribd.Prelude.Map
use distribd.Prelude.Map.{AllRows, AllRows-mono, rows_found, retain-HasUniqueKeys, HasUniqueKeys}
use distribd.Types.{
  repository_eq, digest_eq, Digest, RepositoryName, Artifact, RegistryAction, blob_unstored,
  blob_unmounted, manifest_unstored, manifest_unmounted,
}
use distribd.StateMachine.{Tree, Db}
use distribd.StateMachine.Keys.{IsKeyed}
use distribd.Orphans.{get_orphaned_blobs, get_orphaned_manifests, roots}
use distribd.Orphans.Reach.{Reach, Picks}
use distribd.Orphans.Worklist.{get_orphaned_blobs-Reach, get_orphaned_blobs-retain}
use distribd.Orphans.Tags.{Tagged, get_orphaned_manifests-Tagged}
use distribd.Garbage.{
  Clock, minimum_garbage_age, is_young, is_left, unmounts_of, unmount_manifests, unmount_blobs,
  do_garbage_collect_phase1, unstore_manifests, unstore_blobs, do_garbage_collect_phase2,
}
use distribd.Prelude.{nat_eq}

-- The object is one of the tree's.
abbrev pub IsFound : Tree → Digest → (Artifact → Type 0) → Type 0
IsFound tree d P = (a : Artifact) × (Map.lookup d tree ≡ some a) × P a

abbrev pub IsOld : ℕ → RepositoryName → Artifact → Type 0
IsOld now r a = (a.created + minimum_garbage_age ≤ now) × (Set.contains a.repositories r ≡ true)

-- The action takes an old orphan from a repository that has it.
abbrev pub IsOldMount : Clock → Db → RegistryAction → Type 0
IsOldMount clock db (manifest_unmounted t d r u) =
    (¬ Tagged db d) × IsFound db.manifests d (IsOld (clock.manifest_age d) r)
IsOldMount clock db (blob_unmounted t d r u) =
    (¬ Reach (roots db) db.blobs d) × IsFound db.blobs d (IsOld (clock.blob_age d) r)
IsOldMount clock db _ = ⊥

abbrev pub IsLeftHere : ℕ → Artifact → Type 0
IsLeftHere id a = (Set.contains a.locations id ≡ true) × (a.repositories ≡ [])

-- The action drops this node's copy of an orphan that no repository has, its file being gone.
abbrev pub IsLocalOrphan : ℕ → (Digest → Bool) → (Digest → Bool) → Db → RegistryAction → Type 0
IsLocalOrphan id mc bc db (manifest_unstored t d l u) =
    (l ≡ id) × (mc d ≡ true) × (¬ Tagged db d) × IsFound db.manifests d (IsLeftHere id)
IsLocalOrphan id mc bc db (blob_unstored t d l u) =
    (l ≡ id) × (bc d ≡ true) × (¬ Reach (roots db) db.blobs d) × IsFound db.blobs d (IsLeftHere id)
IsLocalOrphan id mc bc db _ = ⊥

-- the rows of the two searches for orphans
abbrev IsOrphanManifest : Db → Digest → Artifact → Type 0
IsOrphanManifest db d a = (¬ Tagged db d) × (Map.lookup d db.manifests ≡ some a)

abbrev IsOrphanBlob : Db → Digest → Artifact → Type 0
IsOrphanBlob db d a = (¬ Reach (roots db) db.blobs d) × (Map.lookup d db.blobs ≡ some a)

module _ (db : Db) (keyed : IsKeyed db) where
  orphan_manifests : AllRows (IsOrphanManifest db) (get_orphaned_manifests db)
  orphan_manifests =
      AllRows-mono (λ d a. Map.lookup d (get_orphaned_manifests db) ≡ some a) (IsOrphanManifest db)
        (get_orphaned_manifests db)
        (λ d a h. elim (get_orphaned_manifests-Tagged db d keyed.tags) [
          | inl (t, e) ↦ absurd (ground arith)
          | inr (n, e) ↦ (n, ground arith)
        ])
        (rows_found (get_orphaned_manifests db)
          (unfold get_orphaned_manifests in retain-HasUniqueKeys _ db.manifests keyed.manifests))

  module _ (pick : List Digest → Option Digest) (picks : Picks pick) (orphans : Tree)
      (e : get_orphaned_blobs pick db ≡ some orphans) where
    orphans-HasUniqueKeys : HasUniqueKeys orphans
    orphans-HasUniqueKeys =
        let (test, p) = get_orphaned_blobs-retain pick db e in
        subst (λ rows. HasUniqueKeys rows) p (retain-HasUniqueKeys test db.blobs keyed.blobs)

    orphan_blobs : AllRows (IsOrphanBlob db) orphans
    orphan_blobs =
        AllRows-mono (λ d a. Map.lookup d orphans ≡ some a) (IsOrphanBlob db) orphans
          (λ d a h.
            let (found, same, cases) = get_orphaned_blobs-Reach pick picks db d in
            elim cases [ inl (r, p) ↦ absurd (ground arith) | inr (n, p) ↦ (n, ground arith) ])
          (rows_found orphans orphans-HasUniqueKeys)

unmounts-All :
    (P : RegistryAction → Type 0) (f : RepositoryName → RegistryAction) (rs : List RepositoryName)
    → ((r : RepositoryName) → Set.contains rs r ≡ true → P (f r))
    → All P (unmounts_of f rs)
unfolding unmounts_of Set.contains
unmounts-All P f [] h = tt
unmounts-All P f (r ∷ rs) h = (h r (ground arith), unmounts-All P f rs (λ q m. h q (ground arith)))

module _ (clock : Clock) (db : Db) where
  unmount_manifests-IsOldMount :
      (rows : Tree)
      → AllRows (IsOrphanManifest db) rows
      → All (IsOldMount clock db) (unmount_manifests clock rows)
  unfolding unmount_manifests
  unmount_manifests-IsOldMount [] o = tt
  unmount_manifests-IsOldMount ((d, a) ∷ rows) o =
      All-append (IsOldMount clock db) _ _
        (elim (Bool-cases (is_young (clock.manifest_age d) a)) [
          | inl young ↦ rw young tt
          | inr old ↦
              rw old
                (unmounts-All _ _ a.repositories (λ r m. (o.0.0, (a, o.0.1, (ground arith, m)))))
        ])
        (unmount_manifests-IsOldMount rows o.1)

  unmount_blobs-IsOldMount :
      (rows : Tree)
      → AllRows (IsOrphanBlob db) rows
      → All (IsOldMount clock db) (unmount_blobs clock rows)
  unfolding unmount_blobs
  unmount_blobs-IsOldMount [] o = tt
  unmount_blobs-IsOldMount ((d, a) ∷ rows) o =
      All-append (IsOldMount clock db) _ _
        (elim (Bool-cases (is_young (clock.blob_age d) a)) [
          | inl young ↦ rw young tt
          | inr old ↦
              rw old
                (unmounts-All _ _ a.repositories (λ r m. (o.0.0, (a, o.0.1, (ground arith, m)))))
        ])
        (unmount_blobs-IsOldMount rows o.1)

module _ (id : ℕ) (mc bc : Digest → Bool) (clock : Clock) (db : Db) where
  left_here : (a : Artifact) → is_left id a ≡ true → IsLeftHere id a
  left_here a h = ground arith

  unstore_manifests-IsLocalOrphan :
      (rows : Tree)
      → AllRows (IsOrphanManifest db) rows
      → All (IsLocalOrphan id mc bc db) (unstore_manifests clock id mc rows)
  unfolding unstore_manifests
  unstore_manifests-IsLocalOrphan [] o = tt
  unstore_manifests-IsLocalOrphan ((d, a) ∷ rows) o = elim (Bool-cases (is_left id a)) [
    | inr h ↦ rw h (unstore_manifests-IsLocalOrphan rows o.1)
    | inl h ↦ elim (Bool-cases (mc d)) [
      | inr c ↦ rw (h, c) (unstore_manifests-IsLocalOrphan rows o.1)
      | inl c ↦
          rw (h, c)
            ((refl, c, o.0.0, (a, o.0.1, left_here a h)), unstore_manifests-IsLocalOrphan rows o.1)
    ]
  ]

  unstore_blobs-IsLocalOrphan :
      (rows : Tree)
      → AllRows (IsOrphanBlob db) rows
      → All (IsLocalOrphan id mc bc db) (unstore_blobs clock id bc rows)
  unfolding unstore_blobs
  unstore_blobs-IsLocalOrphan [] o = tt
  unstore_blobs-IsLocalOrphan ((d, a) ∷ rows) o = elim (Bool-cases (is_left id a)) [
    | inr h ↦ rw h (unstore_blobs-IsLocalOrphan rows o.1)
    | inl h ↦ elim (Bool-cases (bc d)) [
      | inr c ↦ rw (h, c) (unstore_blobs-IsLocalOrphan rows o.1)
      | inl c ↦
          rw (h, c)
            ((refl, c, o.0.0, (a, o.0.1, left_here a h)), unstore_blobs-IsLocalOrphan rows o.1)
    ]
  ]

module _ (pick : List Digest → Option Digest) (picks : Picks pick) (db : Db) (keyed : IsKeyed db)
    (clock : Clock) where
  orphans_total : (orphans : Tree) × (get_orphaned_blobs pick db ≡ some orphans)
  orphans_total =
      let (orphans, e, cases) =
        get_orphaned_blobs-Reach pick picks db (record { algo = ""; hash = "" }) in
      (orphans, e)

  -- The first sweep returns, and each of its actions takes an untagged manifest, or a blob that no
  -- manifest reaches, that is at least twelve hours old, from a repository that has it.
  pub do_garbage_collect_phase1-IsOldMount :
      (acts : List RegistryAction) × (do_garbage_collect_phase1 clock pick db ≡ some acts)
      × All (IsOldMount clock db) acts
  unfolding do_garbage_collect_phase1
  do_garbage_collect_phase1-IsOldMount =
      let (orphans, e) = orphans_total in
      (
        unmount_manifests clock (get_orphaned_manifests db) ++ unmount_blobs clock orphans,
        rw (e, do_garbage_collect_phase1),
        All-append (IsOldMount clock db) _ _
            (unmount_manifests-IsOldMount clock db _ (orphan_manifests db keyed))
            (unmount_blobs-IsOldMount clock db orphans
              (orphan_blobs db keyed pick picks orphans e)),
      )

  module _ (id : ℕ) (mc bc : Digest → Bool) where
    -- The second sweep returns, and each of its actions drops this node's copy of an untagged
    -- manifest, or of a blob that no manifest reaches, that is here, that no repository has, and
    -- whose file was removed.
    pub do_garbage_collect_phase2-IsLocalOrphan :
        (acts : List RegistryAction) × (do_garbage_collect_phase2 clock id mc bc pick db
          ≡ some acts)
        × All (IsLocalOrphan id mc bc db) acts
    unfolding do_garbage_collect_phase2
    do_garbage_collect_phase2-IsLocalOrphan =
        let (orphans, e) = orphans_total in
        (
          unstore_manifests clock id mc (get_orphaned_manifests db)
              ++ unstore_blobs clock id bc orphans,
          rw (e, do_garbage_collect_phase2),
          All-append (IsLocalOrphan id mc bc db) _ _
              (unstore_manifests-IsLocalOrphan id mc bc clock db _ (orphan_manifests db keyed))
              (unstore_blobs-IsLocalOrphan id mc bc clock db orphans
                (orphan_blobs db keyed pick picks orphans e)),
        )
