-- ===== src/Snapshot/Install.antt =====
-- A snapshot of one node, installed on another.
use distribd.Prelude.{ℕ, String, Option, none, some, [], true, ◌≡◌, refl, arith, ap, ◌∙◌}
use distribd.Prelude.Set
use distribd.Prelude.Map
use distribd.Prelude.Map.{
  or_else, HasUniqueKeys, lookup-nil, lookup-insert_all, insert_all-HasUniqueKeys,
}
use distribd.Types.{digest_eq, tag_key_eq, repository_eq, Digest, TagKey, Artifact}
use distribd.Raft.{LogId}
use distribd.StateMachine.{Tree, Db, fresh}
use distribd.StateMachine.Keys.{IsKeyed}
use distribd.Store.{collect_pending}
use distribd.Store.Pending.{IsCovered, collect}
use distribd.Store.Rechecks.{needs}
use distribd.Snapshot.{
  Serializable, RegistrySnapshot, Node, serialize, from_serializable, insert_tags, group_tags,
  build_snapshot, install_snapshot,
}
use distribd.Snapshot.Trees.{grouped-group_tags, lookup-insert_tags, group_tags-AreKeyed}

-- `c` has the rows of `a`, and beside them those of `b` whose keys `a` lacks.
pub record IsOverlay (a b c : Db) : Type 0 where
  pub blob :
      (d : Digest) → Map.lookup d c.blobs ≡ or_else (Map.lookup d a.blobs) (Map.lookup d b.blobs)
  pub manifest :
      (d : Digest)
      → Map.lookup d c.manifests ≡ or_else (Map.lookup d a.manifests) (Map.lookup d b.manifests)
  pub tag : (k : TagKey) → Map.lookup k c.tags ≡ or_else (Map.lookup k a.tags) (Map.lookup k b.tags)
  pub last_applied : c.last_applied_log ≡ or_else a.last_applied_log b.last_applied_log
  pub last_membership : c.last_membership ≡ a.last_membership

or_else-none {ℓ} : {V : Type ℓ} (o : Option V) → or_else o none ≡ o
or_else-none none = refl
or_else-none (some v) = refl

copied :
    (d : Digest) (tree old : Tree)
    → HasUniqueKeys tree
    → Map.lookup d (Map.insert_all (Map.insert_all tree []) old)
      ≡ or_else (Map.lookup d tree) (Map.lookup d old)
copied d tree old u = ground (
  arith,
  lookup-insert_all d (Map.insert_all tree []) old (insert_all-HasUniqueKeys tree [] tt),
  lookup-insert_all d tree [] u,
  lookup-nil {V = Artifact} d,
  or_else-none (Map.lookup d tree),
)

regrouped :
    (k : TagKey) (tags old : Map.Map TagKey Digest)
    → HasUniqueKeys tags
    → Map.lookup k (insert_tags (group_tags tags []) old)
      ≡ or_else (Map.lookup k tags) (Map.lookup k old)
unfolding Map.lookup
regrouped k tags old u = ground (
  arith,
  lookup-insert_tags k (group_tags tags []) old (group_tags-AreKeyed tags [] tt),
  grouped-group_tags k tags [] u,
  or_else-none (Map.lookup k tags),
)

overlaid :
    (id : ℕ) (a old : Db) → IsKeyed a → IsOverlay a old (from_serializable id (serialize a) old).db
unfolding from_serializable serialize
overlaid id a old k = record {
  blob = λ d. copied d a.blobs old.blobs k.blobs;
  manifest = λ d. copied d a.manifests old.manifests k.manifests;
  tag = λ t. regrouped t a.tags old.tags k.tags;
  last_applied = ground arith;
  last_membership = refl;
}

pub record IsSameState (a c : Db) : Type 0 where
  pub blob : (d : Digest) → Map.lookup d c.blobs ≡ Map.lookup d a.blobs
  pub manifest : (d : Digest) → Map.lookup d c.manifests ≡ Map.lookup d a.manifests
  pub tag : (k : TagKey) → Map.lookup k c.tags ≡ Map.lookup k a.tags
  pub last_applied : c.last_applied_log ≡ a.last_applied_log
  pub last_membership : c.last_membership ≡ a.last_membership

same_state :
    (id : ℕ) (a : Db) → IsKeyed a → IsSameState a (from_serializable id (serialize a) fresh).db
same_state id a k =
    let o = overlaid id a fresh k in
    record {
      blob = λ d.
          ground
            (arith, o.blob d, lookup-nil {V = Artifact} d, or_else-none (Map.lookup d a.blobs));
      manifest = λ d. ground (
        arith,
        o.manifest d,
        lookup-nil {V = Artifact} d,
        or_else-none (Map.lookup d a.manifests),
      );
      tag = λ t.
          ground (arith, o.tag t, lookup-nil {V = Digest} t, or_else-none (Map.lookup t a.tags));
      last_applied = o.last_applied ∙ or_else-none a.last_applied_log;
      last_membership = o.last_membership;
    }

collected :
    (id : ℕ) (rows : Tree) (d : Digest)
    → HasUniqueKeys rows
    → needs id (Map.lookup d (Map.insert_all rows [])) ≡ true
    → Set.contains (collect_pending id rows) d ≡ true
collected id rows d u n = collect id rows d (
    ap (needs id) (
      ground (
        arith,
        lookup-insert_all d rows [] u,
        lookup-nil {V = Artifact} d,
        or_else-none (Map.lookup d rows),
      ))
    ∙ n)

installed-IsCovered : (id : ℕ) (a : Db) → IsCovered (from_serializable id (serialize a) fresh)
unfolding from_serializable serialize
installed-IsCovered id a = record {
  blob = λ d. collected id (Map.insert_all a.blobs []) d (insert_all-HasUniqueKeys a.blobs [] tt);
  manifest = λ d.
      collected id (Map.insert_all a.manifests []) d (insert_all-HasUniqueKeys a.manifests [] tt);
}

module _ {Bytes : Type 0} (to_vec : Serializable → Bytes) (from_slice : Bytes → Option Serializable)
    (format_id : Option LogId → ℕ → String) (a b : Node Bytes) (keyed : IsKeyed a.store.db)
    (readable : from_slice (to_vec (serialize a.store.db)) ≡ some (serialize a.store.db)) where
  abbrev sent : RegistrySnapshot Bytes
  sent = (build_snapshot to_vec format_id a).1

  -- If its bytes decode to what was encoded, a snapshot that one node builds installs on any other.
  -- The rows of the first node come in, but rows of the second whose keys the first lacks stay.
  pub install_snapshot-IsOverlay :
      (b' : Node Bytes) × (install_snapshot from_slice sent b ≡ some b')
      × IsOverlay a.store.db b.store.db b'.store.db
      × (b'.snapshot ≡ some sent)
      × (b'.store.id ≡ b.store.id)
  unfolding build_snapshot install_snapshot
  install_snapshot-IsOverlay = (
    record b {
      store = from_serializable b.store.id (serialize a.store.db) b.store.db;
      snapshot = some sent;
    },
    rw (readable, install_snapshot),
    overlaid b.store.id a.store.db b.store.db keyed,
    refl,
    unfold from_serializable in refl,
  )

  -- On a node with an empty database the installed state is that of the first node, and every
  -- object that the node should mirror is in its sets.
  pub install_snapshot-fresh :
      b.store.db ≡ fresh
      → (b' : Node Bytes) × (install_snapshot from_slice sent b ≡ some b')
        × IsSameState a.store.db b'.store.db
        × IsCovered b'.store
  unfolding build_snapshot install_snapshot
  install_snapshot-fresh e = (
    record b {
      store = from_serializable b.store.id (serialize a.store.db) b.store.db;
      snapshot = some sent;
    },
    rw (readable, install_snapshot),
    rw e (same_state b.store.id a.store.db keyed),
    rw e (installed-IsCovered b.store.id a.store.db),
  )
