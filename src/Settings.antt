-- ===== src/Settings.antt =====
-- The single rows of src/store/mod.rs: the tree `store` holds the last purged log id, the vote, the
-- counter of the snapshots and the current snapshot; the tree `state_machine` holds the last applied
-- log id and the last membership. Logs and Snapshot have these as fields. A row is bytes that
-- serde_json makes and reads, a `Codec`. A flush and its counter change nothing here.
pub mod Fields
use distribd.Prelude.{ℕ, String, Option, none, some, string_eq, ◌≡◌}
use distribd.Prelude.Map
use distribd.Prelude.Map.{Map}
use distribd.Raft.{LogId, StoredMembership, no_membership, Vote}
use distribd.Snapshot.{RegistrySnapshot}

pub record Codec (Bytes A : Type 0) : Type 0 where
  pub to_vec : A → Bytes
  pub from_slice : Bytes → Option A

-- What serde_json promises of the types that derive both of its traits.
abbrev pub IsLossless : {Bytes A : Type 0} → Codec Bytes A → Type 0
IsLossless {A} codec = (a : A) → codec.from_slice (codec.to_vec a) ≡ some a

-- a sled tree whose keys are texts
abbrev pub Rows : Type 0 → Type 0
Rows Bytes = Map String Bytes

pub data StorageResult (A : Type 0) : Type 0 where
  done : A → StorageResult A
  unreadable : StorageResult A

module _ {Bytes A : Type 0} (codec : Codec Bytes A) where
  -- `.and_then(|v| serde_json::from_slice(&v).ok())`: bytes that cannot be read are no row
  abbrev pub read_ok : Option Bytes → Option A
  read_ok none = none
  read_ok (some bytes) = codec.from_slice bytes

  -- `.map_err(sm_r_err)`: bytes that cannot be read are an error
  abbrev pub decoded : Option A → StorageResult A
  decoded none = unreadable
  decoded (some a) = done a

  abbrev pub read_or : A → Option Bytes → StorageResult A
  read_or default none = done default
  read_or default (some bytes) = decoded (codec.from_slice bytes)

  abbrev pub put_row : String → A → Rows Bytes → Rows Bytes
  put_row key a rows = Map.insert key (codec.to_vec a) rows

abbrev pub transposed : {A : Type 0} → StorageResult A → StorageResult (Option A)
transposed (done a) = done (some a)
transposed unreadable = unreadable

abbrev or_zero : Option ℕ → ℕ
or_zero none = 0
or_zero (some n) = n

abbrev pub both :
    StorageResult (Option LogId)
    → StorageResult StoredMembership
    → StorageResult (Option LogId × StoredMembership)
both (done log_id) (done membership) = done (log_id, membership)
both _ _ = unreadable

module _ {Bytes : Type 0} where
  unfoldable pub get_last_purged_ : Codec Bytes LogId → Rows Bytes → Option LogId
  get_last_purged_ codec store = read_ok codec (Map.lookup "last_purged_log_id" store)

  unfoldable pub set_last_purged_ : Codec Bytes LogId → LogId → Rows Bytes → Rows Bytes
  set_last_purged_ codec log_id store = put_row codec "last_purged_log_id" log_id store

  unfoldable pub get_snapshot_index_ : Codec Bytes ℕ → Rows Bytes → ℕ
  get_snapshot_index_ codec store = or_zero (read_ok codec (Map.lookup "snapshot_index" store))

  unfoldable pub set_snapshot_index_ : Codec Bytes ℕ → ℕ → Rows Bytes → Rows Bytes
  set_snapshot_index_ codec snapshot_index store =
      put_row codec "snapshot_index" snapshot_index store

  unfoldable pub get_vote_ : Codec Bytes Vote → Rows Bytes → Option Vote
  get_vote_ codec store = read_ok codec (Map.lookup "vote" store)

  unfoldable pub set_vote_ : Codec Bytes Vote → Vote → Rows Bytes → Rows Bytes
  set_vote_ codec vote store = put_row codec "vote" vote store

  unfoldable pub get_current_snapshot_ :
      Codec Bytes (RegistrySnapshot Bytes) → Rows Bytes → Option (RegistrySnapshot Bytes)
  get_current_snapshot_ codec store = read_ok codec (Map.lookup "snapshot" store)

  unfoldable pub set_current_snapshot_ :
      Codec Bytes (RegistrySnapshot Bytes) → RegistrySnapshot Bytes → Rows Bytes → Rows Bytes
  set_current_snapshot_ codec snap store = put_row codec "snapshot" snap store

  unfoldable pub get_last_membership :
      Codec Bytes StoredMembership → Rows Bytes → StorageResult StoredMembership
  get_last_membership codec state_machine =
      read_or codec no_membership (Map.lookup "last_membership" state_machine)

  -- and `set_last_membership_tx`
  unfoldable pub set_last_membership :
      Codec Bytes StoredMembership → StoredMembership → Rows Bytes → Rows Bytes
  set_last_membership codec membership state_machine =
      put_row codec "last_membership" membership state_machine

  abbrev read_log_id : Codec Bytes LogId → Option Bytes → StorageResult (Option LogId)
  read_log_id codec none = done none
  read_log_id codec (some bytes) = transposed (decoded codec (codec.from_slice bytes))

  unfoldable pub get_last_applied_log :
      Codec Bytes LogId → Rows Bytes → StorageResult (Option LogId)
  get_last_applied_log codec state_machine =
      read_log_id codec (Map.lookup "last_applied_log" state_machine)

  -- and `set_last_applied_log_tx`
  unfoldable pub set_last_applied_log : Codec Bytes LogId → LogId → Rows Bytes → Rows Bytes
  set_last_applied_log codec log_id state_machine =
      put_row codec "last_applied_log" log_id state_machine

  unfoldable pub last_applied_state :
      Codec Bytes LogId
      → Codec Bytes StoredMembership
      → Rows Bytes
      → StorageResult (Option LogId × StoredMembership)
  unfolding get_last_applied_log get_last_membership
  last_applied_state log_ids memberships state_machine =
      both (get_last_applied_log log_ids state_machine)
        (get_last_membership memberships state_machine)
