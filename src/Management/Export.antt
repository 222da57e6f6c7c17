-- ===== src/Management/Export.antt =====
-- What an export can be imported as, and what cannot be imported.
use distribd.Prelude.{
  ℕ, String, Option, none, some, List, [], ◌∷◌, ◌++◌, ok, panic, ◌≡◌, refl, arith, inl, inr, subst,
  Outcome-cases, Bool-cases, ◌==◌, ==_eq, ==_refl, true, false, nat_eq, string_eq,
}
use distribd.Prelude.Set
use distribd.Prelude.Map
use distribd.Prelude.Map.{
  Map, HasUniqueKeys, AllRows, AllRows-mono, or_else, lookup-nil, rows_found, lookup-insert_all,
  insert_all-HasUniqueKeys,
}
use distribd.Types.{digest_eq, repository_eq, tag_key_eq, Digest, TagKey, Artifact, RegistryAction}
use distribd.StateMachine.{Tree, Db, fresh, apply_actions}
use distribd.StateMachine.Artifacts.{Change, change, blob_change}
use distribd.StateMachine.Refinement.{evolve, apply_actions-Agrees}
use distribd.StateMachine.Keys.{IsKeyed}
use distribd.StateMachine.Batches.{evolve-append, KeepsLog, apply_actions-KeepsLog}
use distribd.Snapshot.{serialize}
use distribd.Snapshot.Trees.{grouped-group_tags, group_tags-AreKeyed}
use distribd.Management.{
  Unstamped, Kind, blob_kind, manifest_kind, ImportBody, stamp, import_mounts, import_locations,
  import_artifact, import_artifacts, import_tags, import_actions, import_user, export,
}
use distribd.Management.Stamps.{stamp-append, evolve-Ignores, Reads, import_artifact-Ignores}
use distribd.Management.Copies.{IsImportable, AreCopies}
use distribd.Management.Import.{IsBody, import_actions-IsImported, blob-Reads}

-- Every artifact of the tree can be imported.
abbrev pub AreImportable : Tree → Type 0
AreImportable tree = (d : Digest) (a : Artifact) → Map.lookup d tree ≡ some a → IsImportable d a

pub copied_rows :
    (tree : Tree)
    → HasUniqueKeys tree
    → (d : Digest) → Map.lookup d (Map.insert_all tree []) ≡ Map.lookup d tree
copied_rows tree u d = ground (arith, lookup-insert_all d tree [] u, lookup-nil {V = Artifact} d)

copied-IsImportable :
    (tree : Tree)
    → HasUniqueKeys tree
    → AreImportable tree
    → AllRows IsImportable (Map.insert_all tree [])
copied-IsImportable tree u h =
    AllRows-mono (λ d a. Map.lookup d (Map.insert_all tree []) ≡ some a) IsImportable
      (Map.insert_all tree []) (λ d a e. h d a (ground (arith, copied_rows tree u d)))
      (rows_found (Map.insert_all tree []) (insert_all-HasUniqueKeys tree [] tt))

export-IsBody : (db : Db) → IsKeyed db → IsBody (export db)
unfolding export serialize
export-IsBody db keyed = record {
  blobs = insert_all-HasUniqueKeys db.blobs [] tt;
  manifests = insert_all-HasUniqueKeys db.manifests [] tt;
  tags = group_tags-AreKeyed db.tags [] tt;
}

-- The second database has the artifacts and tags of the first. An artifact's sets may be in another
-- order, and it counts as created at a reading of the clock; no log entry was applied, and there is
-- no membership.
pub record IsClone (clock : ℕ → ℕ) (db db' : Db) : Type 0 where
  pub blobs : (d : Digest) → AreCopies clock (Map.lookup d db.blobs) (Map.lookup d db'.blobs)
  pub manifests :
      (d : Digest) → AreCopies clock (Map.lookup d db.manifests) (Map.lookup d db'.manifests)
  pub tags : (k : TagKey) → Map.lookup k db'.tags ≡ Map.lookup k db.tags
  pub log : KeepsLog fresh db'

-- Let each artifact of a database without two rows of one key have a repository and a description that
-- `info` leaves behind. Its export, imported into an empty database, gives the same blobs, manifests
-- and tags: each with its size, type, dependencies, repositories and locations, and no others. The
-- times are not kept, each counts as created at a reading of the import's clock; and the membership
-- and the last applied log id are those of the empty database.
pub import_actions-export :
    (clock : ℕ → ℕ) (db : Db)
    → IsKeyed db
    → AreImportable db.blobs
    → AreImportable db.manifests
    → (db' : Db) × (apply_actions (import_actions clock (export db)) fresh ≡ ok db')
      × IsClone clock db db'
unfolding export serialize
import_actions-export clock db keyed blobs manifests =
    let (db', e, imported) =
      import_actions-IsImported clock (export db) (export-IsBody db keyed)
        (copied-IsImportable db.blobs keyed.blobs blobs)
        (copied-IsImportable db.manifests keyed.manifests manifests) in
    (
      db',
      e,
      record {
        blobs = λ d.
            subst (λ o. AreCopies clock o (Map.lookup d db'.blobs))
              (copied_rows db.blobs keyed.blobs d) (imported.blobs d);
        manifests = λ d.
            subst (λ o. AreCopies clock o (Map.lookup d db'.manifests))
              (copied_rows db.manifests keyed.manifests d) (imported.manifests d);
        tags = λ k. ground (
          arith,
          imported.tags k,
          grouped-group_tags k db.tags [] keyed.tags,
          lookup-nil {V = Digest} k.tag,
          lookup-nil {V = Digest} k,
          lookup-nil {V = Map String Digest} k.repository,
        );
        log = apply_actions-KeepsLog (import_actions clock (export db)) fresh e;
      },
    )

head_row :
    (d d' : Digest) (a a' : Artifact) (rows : Tree)
    → (d' == d) ≡ true
    → Map.lookup d ((d', a') ∷ rows) ≡ some a
    → a' ≡ a
unfolding Map.lookup
head_row d d' a a' rows same found = ground arith

module _ (f : RegistryAction → Option (Digest × Change)) (kind : Kind) (reads : Reads f kind)
    (d : Digest) (clock : ℕ → ℕ) where
  stores_panic :
      (ls : List ℕ) (more : List Unstamped) (k : ℕ)
      → Set.is_empty ls ≡ false
      → evolve f d (stamp clock k (import_locations kind d ls ++ more)) none ≡ panic
  unfolding import_locations stamp change
  stores_panic [] more k h = absurd (ground arith)
  stores_panic (l ∷ ls) more k h = rw (reads.stored (clock k) d l import_user, ==_refl d) refl

  block_panics :
      (a : Artifact) (k : ℕ)
      → a.repositories ≡ []
      → Set.is_empty a.locations ≡ false
      → evolve f d (stamp clock k (import_artifact kind d a)) none ≡ panic
  unfolding import_artifact import_mounts
  block_panics a k e h = rw e (stores_panic a.locations _ k h)

  rows_panic :
      (rows : Tree) (k : ℕ) (a : Artifact)
      → Map.lookup d rows ≡ some a
      → a.repositories ≡ []
      → Set.is_empty a.locations ≡ false
      → evolve f d (stamp clock k (import_artifacts kind rows)) none ≡ panic
  unfolding import_artifacts Map.lookup
  rows_panic [] k a found e h = absurd (ground arith)
  rows_panic ((d', a') ∷ rows) k a found e h =
      let (j, split) =
        stamp-append clock k (import_artifact kind d' a') (import_artifacts kind rows) in
      let both =
        evolve-append f d (stamp clock k (import_artifact kind d' a'))
          (stamp clock j (import_artifacts kind rows)) none in
      elim (Bool-cases (d' == d)) [
        | inr differ ↦
            rw
              (
                split,
                both,
                evolve-Ignores f d clock k _ none
                    (import_artifact-Ignores f kind reads d d' differ a'),
              )
              (rows_panic rows j a (ground arith) e h)
        | inl same ↦
            rw
              (
                split,
                both,
                ==_eq d' d same,
                head_row d d' a a' rows same found,
                block_panics a k e h,
              )
              refl
      ]

-- An import onto an empty database panics in the state machine if a blob of its body has a location
-- and no repository.
pub import_actions-panic :
    (clock : ℕ → ℕ) (body : ImportBody) (d : Digest) (a : Artifact)
    → Map.lookup d body.blobs ≡ some a
    → a.repositories ≡ []
    → Set.is_empty a.locations ≡ false
    → apply_actions (import_actions clock body) fresh ≡ panic
unfolding import_actions
import_actions-panic clock body d a found e h =
    elim (Outcome-cases (apply_actions (import_actions clock body) fresh)) [
      | inl p ↦ p
      | inr (db, p) ↦
          let agrees = apply_actions-Agrees (import_actions clock body) fresh p in
          let blobs = import_artifacts blob_kind body.blobs in
          let rest = import_artifacts manifest_kind body.manifests ++ import_tags body.tags in
          let (j, split) = stamp-append clock 0 blobs rest in
          let own = rows_panic blob_change blob_kind blob-Reads d clock body.blobs 0 a found e h in
          absurd (
            ground (
              arith,
              agrees.at_blob d,
              lookup-nil {V = Artifact} d,
              split,
              evolve-append blob_change d (stamp clock 0 blobs) (stamp clock j rest) none,
              own,
            ))
    ]
