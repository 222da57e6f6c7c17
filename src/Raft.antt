-- ===== src/Raft.antt =====
-- The data that openraft hands to the store (src/lib.rs, src/store/mod.rs): the fields of its
-- `LogId`, `Entry`, `StoredMembership`, `Vote` and `SnapshotMeta` that the code reads.
use distribd.Prelude.{ℕ, String, Option, none, List, []}
use distribd.Types.{RegistryAction}

pub record LeaderId : Type 0 where
  pub term : ℕ
  pub node_id : ℕ

pub record LogId : Type 0 where
  pub leader_id : LeaderId
  pub index : ℕ

-- node ids with the addresses of their `BasicNode`
abbrev pub Membership : Type 0
Membership = List (ℕ × String)

pub record StoredMembership : Type 0 where
  pub log_id : Option LogId
  pub nodes : Membership

-- `StoredMembership::default()`
abbrev pub no_membership : StoredMembership
no_membership = record { log_id = none; nodes = [] }

pub data RegistryRequest : Type 0 where
  transaction : (actions : List RegistryAction) → RegistryRequest

pub record RegistryResponse : Type 0 where
  pub value : ℕ

pub data EntryPayload : Type 0 where
  blank : EntryPayload
  normal : RegistryRequest → EntryPayload
  membership : Membership → EntryPayload

-- `if let EntryPayload::Normal(RegistryRequest::Transaction { ref actions })`
abbrev pub actions_of : EntryPayload → List RegistryAction
actions_of (normal (transaction actions)) = actions
actions_of _ = []

pub record Entry : Type 0 where
  pub log_id : LogId
  pub payload : EntryPayload

pub record Vote : Type 0 where
  pub leader_id : LeaderId
  pub committed : ℕ
