-- ===== src/StateMachine/Keys.antt =====
-- No tree ever has two rows of one key, which is what sled guarantees of a tree.
use distribd.Prelude.{ℕ, String, List, [], ◌∷◌, ok, ◌≡◌, arith, inl, inr, Outcome-cases, nat_eq}
use distribd.Prelude.Map
use distribd.Prelude.Map.{HasUniqueKeys, insert-HasUniqueKeys, remove-HasUniqueKeys}
use distribd.Types.{
  digest_eq, tag_key_eq, repository_eq, Digest, Artifact, RepositoryName, RegistryAction, empty,
  blob_stored, blob_unstored, blob_mounted, blob_unmounted, blob_info, blob_stat, manifest_stored,
  manifest_unstored, manifest_mounted, manifest_unmounted, manifest_info, manifest_stat,
  hash_tagged,
}
use distribd.Raft.{
  LogId, EntryPayload, blank, normal, transaction, membership, Entry, RegistryResponse,
}
use distribd.StateMachine.{
  Tree, Db, stored, unstored, mounted, unmounted, info, stat, apply_action, apply_actions,
  apply_payload, apply_entries,
}
use distribd.StateMachine.Batches.{opened, apply_entries-Split}

pub record IsKeyed (db : Db) : Type 0 where
  pub blobs : HasUniqueKeys db.blobs
  pub manifests : HasUniqueKeys db.manifests
  pub tags : HasUniqueKeys db.tags

module _ (t : ℕ) (d : Digest) (tree : Tree) (u : HasUniqueKeys tree) where
  put_keyed : (a : Artifact) → HasUniqueKeys (Map.insert d a tree)
  put_keyed a = insert-HasUniqueKeys d a tree u

  stored_keyed : (l : ℕ) {tree' : Tree} → stored t d l tree ≡ ok tree' → HasUniqueKeys tree'
  unfolding stored
  stored_keyed l h = grind (arith, put_keyed)

  unstored_keyed : (l : ℕ) → HasUniqueKeys (unstored t d l tree)
  unfolding unstored
  unstored_keyed l = grind (arith, put_keyed, remove-HasUniqueKeys d tree u)

  mounted_keyed : (r : RepositoryName) → HasUniqueKeys (mounted t d r tree)
  unfolding mounted
  mounted_keyed r = put_keyed _

  unmounted_keyed : (r : RepositoryName) → HasUniqueKeys (unmounted t d r tree)
  unfolding unmounted
  unmounted_keyed r = grind (arith, put_keyed)

  info_keyed : (ds : List Digest) (c : String) → HasUniqueKeys (info t d ds c tree)
  unfolding info
  info_keyed ds c = grind (arith, put_keyed)

  stat_keyed : (n : ℕ) → HasUniqueKeys (stat t d n tree)
  unfolding stat
  stat_keyed n = grind (arith, put_keyed)

apply_action-IsKeyed :
    (a : RegistryAction) (db : Db) {db' : Db}
    → apply_action a db ≡ ok db'
    → IsKeyed db
    → IsKeyed db'
unfolding apply_action
apply_action-IsKeyed empty db h k = ground arith
apply_action-IsKeyed (blob_stored t d l u) db h k = elim (Outcome-cases (stored t d l db.blobs)) [
  | inl e ↦ absurd (ground arith)
  | inr (tree, e) ↦ ground (arith, stored_keyed t d db.blobs k.blobs l e)
]
apply_action-IsKeyed (blob_unstored t d l u) db h k =
    ground (arith, unstored_keyed t d db.blobs k.blobs l)
apply_action-IsKeyed (blob_mounted t d r u) db h k =
    ground (arith, mounted_keyed t d db.blobs k.blobs r)
apply_action-IsKeyed (blob_unmounted t d r u) db h k =
    ground (arith, unmounted_keyed t d db.blobs k.blobs r)
apply_action-IsKeyed (blob_info t d ds c) db h k =
    ground (arith, info_keyed t d db.blobs k.blobs ds c)
apply_action-IsKeyed (blob_stat t d n) db h k = ground (arith, stat_keyed t d db.blobs k.blobs n)
apply_action-IsKeyed (manifest_stored t d l u) db h k =
    elim (Outcome-cases (stored t d l db.manifests)) [
      | inl e ↦ absurd (ground arith)
      | inr (tree, e) ↦ ground (arith, stored_keyed t d db.manifests k.manifests l e)
    ]
apply_action-IsKeyed (manifest_unstored t d l u) db h k =
    ground (arith, unstored_keyed t d db.manifests k.manifests l)
apply_action-IsKeyed (manifest_mounted t d r u) db h k =
    ground (arith, mounted_keyed t d db.manifests k.manifests r)
apply_action-IsKeyed (manifest_unmounted t d r u) db h k =
    ground (arith, unmounted_keyed t d db.manifests k.manifests r)
apply_action-IsKeyed (manifest_info t d ds c) db h k =
    ground (arith, info_keyed t d db.manifests k.manifests ds c)
apply_action-IsKeyed (manifest_stat t d n) db h k =
    ground (arith, stat_keyed t d db.manifests k.manifests n)
apply_action-IsKeyed (hash_tagged t d r n u) db h k =
    ground (arith, insert-HasUniqueKeys (record { repository = r; tag = n }) d db.tags k.tags)

pub apply_actions-IsKeyed :
    (acts : List RegistryAction) (db : Db) {db' : Db}
    → apply_actions acts db ≡ ok db'
    → IsKeyed db
    → IsKeyed db'
unfolding apply_actions
apply_actions-IsKeyed [] db h k = ground arith
apply_actions-IsKeyed (a ∷ acts) db {db'} h k = elim (Outcome-cases (apply_action a db)) [
  | inl e ↦ absurd (ground arith)
  | inr (db₁, e) ↦
      apply_actions-IsKeyed acts db₁ {db' = db'} (ground arith) (apply_action-IsKeyed a db e k)
]

apply_payload-IsKeyed :
    (l : LogId) (p : EntryPayload) (db : Db) {db' : Db}
    → apply_payload l p db ≡ ok db'
    → IsKeyed db
    → IsKeyed db'
unfolding apply_payload
apply_payload-IsKeyed l blank db h k = ground arith
apply_payload-IsKeyed l (membership nodes) db h k = ground arith
apply_payload-IsKeyed l (normal (transaction actions)) db {db'} h k =
    apply_actions-IsKeyed actions db {db' = db'} h k

-- A batch of entries that goes through keeps each tree free of two rows of one key.
pub apply_entries-IsKeyed :
    (entries : List Entry) (db : Db) {db' : Db} {responses : List RegistryResponse}
    → apply_entries entries db ≡ ok (db', responses)
    → IsKeyed db
    → IsKeyed db'
unfolding apply_entries
apply_entries-IsKeyed [] db h k = ground arith
apply_entries-IsKeyed (e ∷ entries) db {db'} {responses} h k =
    let s = apply_entries-Split e entries db {db' = db'} {responses = responses} h in
    apply_entries-IsKeyed entries s.middle {db' = db'} {responses = s.later} s.rest (
      apply_payload-IsKeyed e.log_id e.payload (opened e db) s.first
        (record { blobs = k.blobs; manifests = k.manifests; tags = k.tags }))
