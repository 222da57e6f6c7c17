-- ===== src/StateMachine.antt =====
-- The replicated state of src/store/mod.rs: the sled trees `blobs`, `manifests`, `tags` and
-- `state_machine`, and what one log entry does to them inside the sled transaction of
-- `apply_to_state_machine`. A sled read or write fails only on an I/O error, which is not modelled;
-- an `unwrap` of a missing entry is the outcome `panic`.
pub mod Artifacts
pub mod Refinement
pub mod Batches
pub mod Keys
use distribd.Prelude.{
  ℕ, String, Option, none, some, List, [], ◌∷◌, Outcome, ok, unwrap, ◌>>=◌, map_outcome,
  if◌then◌else◌, nat_eq,
}
use distribd.Prelude.Set
use distribd.Prelude.Map
use distribd.Prelude.Map.{Map}
use distribd.Types.{
  digest_eq, repository_eq, tag_key_eq, Digest, RepositoryName, TagKey, Artifact, Blob, Manifest,
  RegistryAction, empty, blob_stored, blob_unstored, blob_mounted, blob_unmounted, blob_info,
  blob_stat, manifest_stored, manifest_unstored, manifest_mounted, manifest_unmounted,
  manifest_info, manifest_stat, hash_tagged,
}
use distribd.Raft.{
  LogId, StoredMembership, no_membership, transaction, RegistryResponse, Entry, EntryPayload, blank,
  normal, membership,
}

abbrev pub Tree : Type 0
Tree = Map Digest Artifact

pub record Db : Type 0 where
  pub manifests : Map Digest Manifest
  pub blobs : Map Digest Blob
  pub tags : Map TagKey Digest
  pub last_applied_log : Option LogId
  pub last_membership : StoredMembership

-- a database that was just opened for the first time
abbrev pub fresh : Db
fresh = record {
  manifests = [];
  blobs = [];
  tags = [];
  last_applied_log = none;
  last_membership = no_membership;
}

-- `tx_get_blob` and `tx_get_manifest`
abbrev pub tx_get : Tree → Digest → Option Artifact
tx_get tree digest = Map.lookup digest tree

-- `tx_put_blob` and `tx_put_manifest`
abbrev pub tx_put : Tree → Digest → Artifact → Tree
tx_put tree digest artifact = Map.insert digest artifact tree

-- `tx_del_blob` and `tx_del_manifest`
abbrev pub tx_del : Tree → Digest → Tree
tx_del tree digest = Map.remove digest tree

abbrev pub tx_put_tag : Map TagKey Digest → RepositoryName → String → Digest → Map TagKey Digest
tx_put_tag tags repository tag digest =
    Map.insert (record { repository = repository; tag = tag }) digest tags

-- The branches of the match on the action, each for a blob and for a manifest.
unfoldable pub stored : ℕ → Digest → ℕ → Tree → Outcome Tree
stored timestamp digest location tree = do
  artifact ← unwrap (tx_get tree digest)
  let artifact = record artifact {
    updated = timestamp;
    locations = Set.insert location artifact.locations;
  }
  ok (tx_put tree digest artifact)

abbrev put_or_del : Tree → Digest → Artifact → Tree
put_or_del tree digest artifact =
    if Set.is_empty artifact.locations then tx_del tree digest else tx_put tree digest artifact

unfoldable pub unstored : ℕ → Digest → ℕ → Tree → Tree
unstored timestamp digest location tree = elim (tx_get tree digest) [
  | none ↦ tree
  | some artifact ↦
      put_or_del tree digest (record artifact {
        updated = timestamp;
        locations = Set.remove location artifact.locations;
      })
]

abbrev new_artifact : ℕ → Artifact
new_artifact timestamp = record {
  created = timestamp;
  updated = timestamp;
  content_type = none;
  size = none;
  dependencies = some [];
  locations = [];
  repositories = [];
}

abbrev or_new : ℕ → Option Artifact → Artifact
or_new timestamp (some artifact) = artifact
or_new timestamp none = new_artifact timestamp

unfoldable pub mounted : ℕ → Digest → RepositoryName → Tree → Tree
mounted timestamp digest repository tree =
    let artifact = or_new timestamp (tx_get tree digest) in
    tx_put tree digest (record artifact {
      updated = timestamp;
      repositories = Set.insert repository artifact.repositories;
    })

unfoldable pub unmounted : ℕ → Digest → RepositoryName → Tree → Tree
unmounted timestamp digest repository tree = elim (tx_get tree digest) [
  | none ↦ tree
  | some artifact ↦ tx_put tree digest (record artifact {
    updated = timestamp;
    repositories = Set.remove repository artifact.repositories;
  })
]

unfoldable pub info : ℕ → Digest → List Digest → String → Tree → Tree
info timestamp digest dependencies content_type tree = elim (tx_get tree digest) [
  | none ↦ tree
  | some artifact ↦ tx_put tree digest (record artifact {
    updated = timestamp;
    dependencies = some dependencies;
    content_type = some content_type;
  })
]

unfoldable pub stat : ℕ → Digest → ℕ → Tree → Tree
stat timestamp digest size tree = elim (tx_get tree digest) [
  | none ↦ tree
  | some artifact ↦ tx_put tree digest (record artifact { updated = timestamp; size = some size })
]

-- one round of the loop over the actions of a transaction
unfoldable pub apply_action : RegistryAction → Db → Outcome Db
apply_action empty db = ok db
apply_action (blob_stored timestamp digest location user) db =
    map_outcome (λ tree. record db { blobs = tree }) (stored timestamp digest location db.blobs)
apply_action (blob_unstored timestamp digest location user) db =
    ok (record db { blobs = unstored timestamp digest location db.blobs })
apply_action (blob_mounted timestamp digest repository user) db =
    ok (record db { blobs = mounted timestamp digest repository db.blobs })
apply_action (blob_unmounted timestamp digest repository user) db =
    ok (record db { blobs = unmounted timestamp digest repository db.blobs })
apply_action (blob_info timestamp digest dependencies content_type) db =
    ok (record db { blobs = info timestamp digest dependencies content_type db.blobs })
apply_action (blob_stat timestamp digest size) db =
    ok (record db { blobs = stat timestamp digest size db.blobs })
apply_action (manifest_stored timestamp digest location user) db =
    map_outcome (λ tree. record db { manifests = tree })
      (stored timestamp digest location db.manifests)
apply_action (manifest_unstored timestamp digest location user) db =
    ok (record db { manifests = unstored timestamp digest location db.manifests })
apply_action (manifest_mounted timestamp digest repository user) db =
    ok (record db { manifests = mounted timestamp digest repository db.manifests })
apply_action (manifest_unmounted timestamp digest repository user) db =
    ok (record db { manifests = unmounted timestamp digest repository db.manifests })
apply_action (manifest_info timestamp digest dependencies content_type) db =
    ok (record db { manifests = info timestamp digest dependencies content_type db.manifests })
apply_action (manifest_stat timestamp digest size) db =
    ok (record db { manifests = stat timestamp digest size db.manifests })
apply_action (hash_tagged timestamp digest repository tag user) db =
    ok (record db { tags = tx_put_tag db.tags repository tag digest })

unfoldable pub apply_actions : List RegistryAction → Db → Outcome Db
unfolding apply_action
apply_actions [] db = ok db
apply_actions (action ∷ actions) db = do db' ← apply_action action db; apply_actions actions db'

-- `match entry.payload`
unfoldable pub apply_payload : LogId → EntryPayload → Db → Outcome Db
unfolding apply_actions
apply_payload log_id blank db = ok db
apply_payload log_id (normal (transaction actions)) db = apply_actions actions db
apply_payload log_id (membership nodes) db =
    ok (record db { last_membership = record { log_id = some log_id; nodes = nodes } })

-- one round of the loop over the entries
unfoldable pub apply_entry : Entry → Db → Outcome (Db × RegistryResponse)
unfolding apply_payload
apply_entry entry db = do
  db' ←
      apply_payload entry.log_id entry.payload (record db { last_applied_log = some entry.log_id })
  ok (db', record { value = entry.log_id.index })

-- The whole closure: a panic discards all of it, as sled's transaction does.
unfoldable pub apply_entries : List Entry → Db → Outcome (Db × List RegistryResponse)
unfolding apply_entry
apply_entries [] db = ok (db, [])
apply_entries (entry ∷ entries) db = do
  (db', response) ← apply_entry entry db
  (db'', responses) ← apply_entries entries db'
  ok (db'', response ∷ responses)
