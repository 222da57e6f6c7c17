-- ===== src/Orphans/Worklist.antt =====
-- The `while` loop of `get_orphaned_blobs`: its invariant, that it ends, and what it has visited.
use distribd.Prelude.{
  Bool, filter, ℕ, suc, zero, ◌<◌, Option, none, some, List, [], ◌++◌, if◌then◌else◌, true, false,
  not, ◌||◌, ◌≡◌, subst, arith, ◌⊎◌, inl, inr, Option-cases, Bool-cases, ◌==◌,
}
use distribd.Prelude.Set
use distribd.Prelude.Set.{contains-nil, contains-insert, contains-remove, contains-extend}
use distribd.Prelude.Map
use distribd.Prelude.Map.{lookup-retain}
use distribd.Types.{digest_eq, Digest}
use distribd.StateMachine.{Tree, Db}
use distribd.Orphans.{dependencies_of, visit, blob_dependencies, roots, enough, get_orphaned_blobs}
use distribd.Orphans.Reach.{
  Reach, root, through, Picks, contains-filter, contains-append, missing, missing-lt, missing-nil,
  dependencies-known,
}

abbrev all_digests : Db → List Digest
all_digests db = roots db ++ blob_dependencies db.blobs

-- one round, at the digest that was picked
abbrev next_visiting : Db → Digest → List Digest → List Digest → List Digest
next_visiting db d visiting visited = Set.remove d (
    Set.extend
      (filter (λ x. not (Set.contains visited x)) (dependencies_of (Map.lookup d db.blobs)))
      visiting)

contains-next_visiting :
    (db : Db) (d : Digest) (visiting visited : List Digest) (x : Digest)
    → Set.contains (next_visiting db d visiting visited) x ≡ (
        if d == x
        then false
        else (if Set.contains visited x
            then false
            else Set.contains (dependencies_of (Map.lookup d db.blobs)) x)
          || Set.contains visiting x)
contains-next_visiting db d visiting visited x =
    let fresh =
      filter (λ x. not (Set.contains visited x)) (dependencies_of (Map.lookup d db.blobs)) in
    ground (
      arith,
      contains-remove d x (Set.extend fresh visiting),
      contains-extend fresh visiting x,
      contains-filter (λ x. not (Set.contains visited x)) (dependencies_of (Map.lookup d db.blobs))
          x,
    )

-- what holds before each round
record Inv (db : Db) (visiting visited : List Digest) : Type 0 where
  apart : (d : Digest) → Set.contains visiting d ≡ true → Set.contains visited d ≡ false
  known : (d : Digest) → Set.contains visiting d ≡ true → Set.contains (all_digests db) d ≡ true
  started :
      (d : Digest)
      → Set.contains (roots db) d ≡ true
      → (Set.contains visiting d || Set.contains visited d) ≡ true
  closed :
      (d d' : Digest)
      → Set.contains visited d ≡ true
      → Set.contains (dependencies_of (Map.lookup d db.blobs)) d' ≡ true
      → (Set.contains visiting d' || Set.contains visited d') ≡ true
  reached :
      (d : Digest)
      → (Set.contains visiting d || Set.contains visited d) ≡ true
      → Reach (roots db) db.blobs d

module _ (db : Db) (d : Digest) (visiting visited : List Digest) (v : Inv db visiting visited)
    (here : Set.contains visiting d ≡ true) where
  next-Inv : Inv db (next_visiting db d visiting visited) (Set.insert d visited)
  next-Inv = record {
    apart = λ x h. ground (arith, at x, contains-insert d x visited, v.apart x);
    known = λ x h. ground (
      arith,
      at x,
      v.known x,
      dependencies-known db.blobs d x,
      contains-append (roots db) (blob_dependencies db.blobs) x,
    );
    started = λ x h. ground (arith, at x, contains-insert d x visited, v.started x h);
    closed = λ x y h k.
        ground
          (arith, at y, contains-insert d x visited, contains-insert d y visited, v.closed x y);
    reached = λ x h. elim (Bool-cases (Set.contains visiting x || Set.contains visited x)) [
      | inl old ↦ v.reached x old
      | inr new ↦
          through (v.reached d (ground arith)) (ground (arith, at x, contains-insert d x visited))
    ];
  }
    where
      at :
          (x : Digest)
          → Set.contains (next_visiting db d visiting visited) x ≡ (
              if d == x
              then false
              else (if Set.contains visited x
                  then false
                  else Set.contains (dependencies_of (Map.lookup d db.blobs)) x)
                || Set.contains visiting x)
      at = contains-next_visiting db d visiting visited

module _ (pick : List Digest → Option Digest) (picks : Picks pick) (db : Db) where
  -- With more fuel than digests that are not yet visited the loop ends, and what it has visited is
  -- closed with nothing left to visit.
  visit-ends :
      (fuel : ℕ) (visiting visited : List Digest)
      → Inv db visiting visited
      → missing (all_digests db) visited < fuel
      → (final : List Digest) × (visit pick db.blobs fuel visiting visited ≡ some final)
        × Inv db [] final
  unfolding visit
  visit-ends zero visiting visited v h = elim h [ ]
  visit-ends (suc fuel) visiting visited v h = elim (Option-cases (pick visiting)) [
    | inl e ↦ (visited, rw (e, visit), subst (λ s. Inv db s visited) (picks.nothing visiting e) v)
    | inr (d, e) ↦
        let here = picks.member visiting d e in
        rw (e, visit)
          (visit-ends fuel (next_visiting db d visiting visited) (Set.insert d visited)
            (next-Inv db d visiting visited v here)
            (omega
              (arith, missing-lt (all_digests db) visited d (v.known d here) (v.apart d here))))
  ]

  start-Inv : Inv db (roots db) []
  start-Inv = record {
    apart = λ d h. contains-nil d;
    known = λ d h. ground (arith, contains-append (roots db) (blob_dependencies db.blobs) d);
    started = λ d h. ground arith;
    closed = λ d d' h k. ground (arith, contains-nil d);
    reached = λ d h. root (ground (arith, contains-nil d));
  }

  Reach-visited :
      {final : List Digest}
      → Inv db [] final
      → {d : Digest} → Reach (roots db) db.blobs d
      → Set.contains final d ≡ true
  Reach-visited v (root {d} h) = ground (arith, v.started d h, contains-nil d)
  Reach-visited v (through {d} {d'} r h) =
      ground (arith, v.closed d d' (Reach-visited v r) h, contains-nil d')

  -- Whatever element the iterator of a `HashSet` gives first, the search for orphans ends. Of each
  -- blob it drops it exactly when a manifest depends on it, directly or through blobs, and
  -- otherwise keeps it as it is.
  pub get_orphaned_blobs-Reach :
      (d : Digest)
      → (orphans : Tree) × (get_orphaned_blobs pick db ≡ some orphans)
        × ((Reach (roots db) db.blobs d × (Map.lookup d orphans ≡ none))
            ⊎ ((¬ Reach (roots db) db.blobs d) × (Map.lookup d orphans ≡ Map.lookup d db.blobs)))
  unfolding get_orphaned_blobs
  get_orphaned_blobs-Reach d =
      let (final, ended, v) =
        visit-ends (enough db) (roots db) [] start-Inv
          (omega (arith, missing-nil (all_digests db))) in
      let kept = lookup-retain (λ k. not (Set.contains final k)) d db.blobs in
      (
        Map.retain (λ k. not (Set.contains final k)) db.blobs,
        rw (ended, get_orphaned_blobs),
        elim (Bool-cases (Set.contains final d)) [
          | inl seen ↦ inl (v.reached d (ground arith), ground (arith, kept))
          | inr unseen ↦ inr (λ r. cc (unseen, Reach-visited v r), ground (arith, kept))
        ],
      )

-- What is left is some of the rows.
pub get_orphaned_blobs-retain :
    (pick : List Digest → Option Digest) (db : Db) {orphans : Tree}
    → get_orphaned_blobs pick db ≡ some orphans
    → (test : Digest → Bool) × (Map.retain test db.blobs ≡ orphans)
unfolding get_orphaned_blobs
get_orphaned_blobs-retain pick db e =
    elim (Option-cases (visit pick db.blobs (enough db) (roots db) [])) [
      | inl p ↦ absurd (ground arith)
      | inr (visited, p) ↦ ((λ k. not (Set.contains visited k)), ground arith)
    ]
