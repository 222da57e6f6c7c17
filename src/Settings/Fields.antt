-- ===== src/Settings/Fields.antt =====
-- The rows behave as the fields of a record.
use distribd.Prelude.{ℕ, String, Option, some, string_eq, str_dec, ◌≡◌, ◌==◌, if◌then◌else◌, arith}
use distribd.Prelude.Map
use distribd.Prelude.Map.{lookup-insert}
use distribd.Raft.{LogId, StoredMembership, Vote}
use distribd.Snapshot.{RegistrySnapshot}
use distribd.Settings.{
  Codec, IsLossless, Rows, done, both, get_last_purged_, set_last_purged_, get_snapshot_index_,
  set_snapshot_index_, get_vote_, set_vote_, get_current_snapshot_, set_current_snapshot_,
  get_last_membership, set_last_membership, get_last_applied_log, set_last_applied_log,
  last_applied_state,
}

-- serde_json for the types of the rows
pub record Codecs (Bytes : Type 0) : Type 0 where
  pub log_ids : Codec Bytes LogId
  pub indexes : Codec Bytes ℕ
  pub votes : Codec Bytes Vote
  pub snapshots : Codec Bytes (RegistrySnapshot Bytes)
  pub memberships : Codec Bytes StoredMembership

pub record AreLossless {Bytes : Type 0} (codecs : Codecs Bytes) : Type 0 where
  pub log_ids : IsLossless codecs.log_ids
  pub indexes : IsLossless codecs.indexes
  pub votes : IsLossless codecs.votes
  pub snapshots : IsLossless codecs.snapshots
  pub memberships : IsLossless codecs.memberships

-- what the store and its state machine remember
pub record Fields (Bytes : Type 0) : Type 0 where
  pub last_purged : Option LogId
  pub snapshot_index : ℕ
  pub vote : Option Vote
  pub snapshot : Option (RegistrySnapshot Bytes)

module _ {Bytes : Type 0} (codecs : Codecs Bytes) where
  abbrev pub fields : Rows Bytes → Fields Bytes
  fields store = record {
    last_purged = get_last_purged_ codecs.log_ids store;
    snapshot_index = get_snapshot_index_ codecs.indexes store;
    vote = get_vote_ codecs.votes store;
    snapshot = get_current_snapshot_ codecs.snapshots store;
  }

  -- Each write changes its own field and no other, on whatever rows.
  pub record AreFields (store state_machine : Rows Bytes) : Type 0 where
    pub last_purged :
        (log_id : LogId)
        → fields (set_last_purged_ codecs.log_ids log_id store)
          ≡ record (fields store) { last_purged = some log_id }
    pub snapshot_index :
        (index : ℕ)
        → fields (set_snapshot_index_ codecs.indexes index store)
          ≡ record (fields store) { snapshot_index = index }
    pub vote :
        (vote : Vote)
        → fields (set_vote_ codecs.votes vote store) ≡ record (fields store) { vote = some vote }
    pub snapshot :
        (snap : RegistrySnapshot Bytes)
        → fields (set_current_snapshot_ codecs.snapshots snap store)
          ≡ record (fields store) { snapshot = some snap }
    pub last_applied_log :
        (log_id : LogId)
        → last_applied_state codecs.log_ids codecs.memberships
            (set_last_applied_log codecs.log_ids log_id state_machine)
          ≡ both (done (some log_id)) (get_last_membership codecs.memberships state_machine)
    pub last_membership :
        (membership : StoredMembership)
        → last_applied_state codecs.log_ids codecs.memberships
            (set_last_membership codecs.memberships membership state_machine)
          ≡ both (get_last_applied_log codecs.log_ids state_machine) (done membership)

  -- what an insertion does to the four rows of `store`, the tests of the keys computed
  rows_after :
      (key : String) (b : Bytes) (store : Rows Bytes)
      → (Map.lookup "last_purged_log_id" (Map.insert key b store)
          ≡ (if key == "last_purged_log_id" then some b else Map.lookup "last_purged_log_id" store))
        × (Map.lookup "snapshot_index" (Map.insert key b store)
            ≡ (if key == "snapshot_index" then some b else Map.lookup "snapshot_index" store))
        × (Map.lookup "vote" (Map.insert key b store)
            ≡ (if key == "vote" then some b else Map.lookup "vote" store))
        × (Map.lookup "snapshot" (Map.insert key b store)
            ≡ (if key == "snapshot" then some b else Map.lookup "snapshot" store))
  rows_after key b store = (
    lookup-insert key "last_purged_log_id" b store,
    lookup-insert key "snapshot_index" b store,
    lookup-insert key "vote" b store,
    lookup-insert key "snapshot" b store,
  )

  -- If serde_json reads back what it wrote, the rows of the two trees are fields: each write changes
  -- its own and no other, and `last_applied_state` shows those of the state machine.
  pub sets-AreFields :
      AreLossless codecs → (store state_machine : Rows Bytes) → AreFields store state_machine
  unfolding get_last_purged_ get_snapshot_index_ get_vote_ get_current_snapshot_ set_last_purged_
      set_snapshot_index_ set_vote_ set_current_snapshot_ last_applied_state set_last_applied_log
      set_last_membership get_last_membership get_last_applied_log str_dec
  sets-AreFields lossless store state_machine = record {
    last_purged = λ log_id.
        let rows = rows_after "last_purged_log_id" (codecs.log_ids.to_vec log_id) store in
        ground (arith, rows, lossless.log_ids log_id);
    snapshot_index = λ index.
        let rows = rows_after "snapshot_index" (codecs.indexes.to_vec index) store in
        ground (arith, rows, lossless.indexes index);
    vote = λ vote.
        let rows = rows_after "vote" (codecs.votes.to_vec vote) store in
        ground (arith, rows, lossless.votes vote);
    snapshot = λ snap.
        let rows = rows_after "snapshot" (codecs.snapshots.to_vec snap) store in
        ground (arith, rows, lossless.snapshots snap);
    last_applied_log = λ log_id.
        let b = codecs.log_ids.to_vec log_id in
        ground (
          arith,
          lookup-insert "last_applied_log" "last_applied_log" b state_machine,
          lookup-insert "last_applied_log" "last_membership" b state_machine,
          lossless.log_ids log_id,
        );
    last_membership = λ membership.
        let b = codecs.memberships.to_vec membership in
        ground (
          arith,
          lookup-insert "last_membership" "last_applied_log" b state_machine,
          lookup-insert "last_membership" "last_membership" b state_machine,
          lossless.memberships membership,
        );
  }
