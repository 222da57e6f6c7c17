-- ===== src/Snapshot.antt =====
-- Snapshots of src/store/mod.rs: what is serialised, how it is built, and how it is installed into
-- the database of a node. `serde_json` is the parameters `to_vec` and `from_slice`, and `format_id` stands for the
-- text that `format!` makes of the last log id and the counter.
pub mod Trees
pub mod Install
use distribd.Prelude.{
  ℕ, ◌+◌, ◌%◌, ◌^◌, String, Option, none, some, List, [], ◌∷◌, if◌then◌else◌, string_eq, ◌≡◌,
}
use distribd.Prelude.Map
use distribd.Prelude.Map.{Map}
use distribd.Types.{
  digest_eq, tag_key_eq, repository_eq, Digest, RepositoryName, TagKey, Blob, Manifest,
}
use distribd.Raft.{LogId, StoredMembership}
use distribd.StateMachine.{Db}
use distribd.Store.{RegistryStore, collect_pending, new_watch}

abbrev pub Tags : Type 0
Tags = Map RepositoryName (Map String Digest)

-- `SerializableRegistryStateMachine`
pub record Serializable : Type 0 where
  pub last_applied_log : Option LogId
  pub last_membership : StoredMembership
  pub manifests : Map Digest Manifest
  pub blobs : Map Digest Blob
  pub tags : Tags

pub record SnapshotMeta : Type 0 where
  pub last_log_id : Option LogId
  pub last_membership : StoredMembership
  pub snapshot_id : String

pub record RegistrySnapshot (Bytes : Type 0) : Type 0 where
  pub meta : SnapshotMeta
  pub content : Bytes

-- The store with the rows `snapshot_index` and `snapshot` of the tree `store`.
pub record Node (Bytes : Type 0) : Type 0 where
  pub store : RegistryStore
  pub snapshot_index : ℕ
  pub snapshot : Option (RegistrySnapshot Bytes)

abbrev pub inner_of : Option (Map String Digest) → Map String Digest
inner_of none = []
inner_of (some inner) = inner

-- the loop over the tag tree: `entry(repository).or_insert_with(BTreeMap::new)`, then `insert`
unfoldable pub group_tags : Map TagKey Digest → Tags → Tags
group_tags [] acc = acc
group_tags ((key, digest) ∷ rows) acc = group_tags rows (
    Map.insert key.repository (Map.insert key.tag digest (inner_of (Map.lookup key.repository acc)))
      acc)

-- `From<&RegistryStateMachine>`
unfoldable pub serialize : Db → Serializable
unfolding group_tags
serialize db = record {
  last_applied_log = db.last_applied_log;
  last_membership = db.last_membership;
  manifests = Map.insert_all db.manifests [];
  blobs = Map.insert_all db.blobs [];
  tags = group_tags db.tags [];
}

-- the rows that the two loops of `from_serializable` over the tags put into their batch
unfoldable pub repository_rows : RepositoryName → Map String Digest → Map TagKey Digest
repository_rows repository [] = []
repository_rows repository ((tag, digest) ∷ rows) =
    (record { repository = repository; tag = tag }, digest) ∷ repository_rows repository rows

unfoldable pub insert_tags : Tags → Map TagKey Digest → Map TagKey Digest
unfolding repository_rows
insert_tags [] tree = tree
insert_tags ((repository, inner) ∷ tags) tree =
    insert_tags tags (Map.insert_all (repository_rows repository inner) tree)

abbrev or_keep : Option LogId → Option LogId → Option LogId
or_keep none old = old
or_keep (some log_id) old = some log_id

-- The batches are applied on top of what the database holds.
unfoldable pub from_serializable : ℕ → Serializable → Db → RegistryStore
unfolding insert_tags
from_serializable id sm db = record {
  id = id;
  db = record {
    blobs = Map.insert_all sm.blobs db.blobs;
    manifests = Map.insert_all sm.manifests db.manifests;
    tags = insert_tags sm.tags db.tags;
    last_applied_log = or_keep sm.last_applied_log db.last_applied_log;
    last_membership = sm.last_membership;
  };
  watch = new_watch (collect_pending id sm.blobs) (collect_pending id sm.manifests);
}

-- `serde_json::to_vec` and `serde_json::from_slice` on `SerializableRegistryStateMachine`
module _ {Bytes : Type 0} (to_vec : Serializable → Bytes) where
  unfoldable pub build_snapshot :
      (Option LogId → ℕ → String) → Node Bytes → Node Bytes × RegistrySnapshot Bytes
  unfolding serialize
  build_snapshot format_id node =
      (record node { snapshot_index = index; snapshot = some built }, built)
    where
      index : ℕ
      index = (node.snapshot_index + 1) % 2 ^ 64

      sm : Serializable
      sm = serialize node.store.db

      built : RegistrySnapshot Bytes
      built = record {
        meta = record {
          last_log_id = sm.last_applied_log;
          last_membership = sm.last_membership;
          snapshot_id = format_id sm.last_applied_log index;
        };
        content = to_vec sm;
      }

module _ {Bytes : Type 0} (from_slice : Bytes → Option Serializable) where
  -- `none` is the storage error of a snapshot that does not decode: nothing was changed.
  unfoldable pub install_snapshot : RegistrySnapshot Bytes → Node Bytes → Option (Node Bytes)
  unfolding from_serializable
  install_snapshot snapshot node = elim (from_slice snapshot.content) [
    | none ↦ none
    | some sm ↦ some (record node {
      store = from_serializable node.store.id sm node.store.db;
      snapshot = some snapshot;
    })
  ]
