-- ===== src/Store.antt =====
-- `RegistryStore` of src/store/mod.rs: the replicated state with what the node keeps beside it,
-- the sets of digests to mirror and the requests that wait for a download. A waiter is the number
-- of its oneshot channel, and `is_open` says whether the receiver still listens: `send` on a
-- closed channel is an error that the code unwraps. A panic there comes after sled has committed
-- the entries, and leaves the lock of the state machine poisoned; it is the outcome `panic` too.

pub mod Rechecks
pub mod Pending
pub mod Tags
pub mod Wakes
pub mod Notes
pub mod Waiters
use distribd.Prelude.{
  ℕ, Option, none, some, List, [], ◌∷◌, ◌++◌, Outcome, ok, panic, ◌>>=◌, if◌then◌else◌, ◌==◌, not,
  ◌&&◌, Bool, nat_eq, map,
}
use distribd.Prelude.Set
use distribd.Prelude.Map
use distribd.Prelude.Map.{Map}
use distribd.Types.{
  digest_eq, Digest, Artifact, RegistryAction, blob_stored, blob_unstored, manifest_stored,
  manifest_unstored,
}
use distribd.Raft.{RegistryResponse, Entry, actions_of}
use distribd.StateMachine.{Tree, Db, fresh, apply_entries}

-- `RegistryStateMachine`, less its database. `woken` lists the channels that were sent to.
pub record Watch : Type 0 where
  pub pending_manifests : List Digest
  pub pending_blobs : List Digest
  pub manifest_waiters : Map Digest (List ℕ)
  pub blob_waiters : Map Digest (List ℕ)
  pub woken : List ℕ

pub record RegistryStore : Type 0 where
  pub id : ℕ
  pub db : Db
  pub watch : Watch

-- The test of `new`, of `from_serializable` and of `apply_to_state_machine`: another node has the
-- object and this one does not.
unfoldable pub is_pending : ℕ → Artifact → Bool
is_pending id artifact =
    not (Set.contains artifact.locations id) && not (Set.is_empty artifact.locations)

-- the digests that a filter of a tree collects into a `HashSet`
unfoldable pub collect_pending : ℕ → Tree → List Digest
unfolding is_pending
collect_pending id [] = []
collect_pending id ((digest, artifact) ∷ tree) =
    let rest = collect_pending id tree in
    if is_pending id artifact then Set.insert digest rest else rest

abbrev pub new_watch : List Digest → List Digest → Watch
new_watch blobs manifests = record {
  pending_manifests = manifests;
  pending_blobs = blobs;
  manifest_waiters = [];
  blob_waiters = [];
  woken = [];
}

-- `RegistryStore::new`
unfoldable pub new : Db → ℕ → RegistryStore
new db id = record {
  id = id;
  db = db;
  watch = new_watch (collect_pending id db.blobs) (collect_pending id db.manifests);
}

-- `get_blob` and `get_manifest`
abbrev pub get : Tree → Digest → Option Artifact
get tree digest = Map.lookup digest tree

-- `wait_for_blob` and `wait_for_manifest` of src/app.rs, up to the await
unfoldable pub add_waiter : Digest → ℕ → Map Digest (List ℕ) → Map Digest (List ℕ)
add_waiter digest channel waiters = elim (Map.lookup digest waiters) [
  | none ↦ Map.insert digest (channel ∷ []) waiters
  | some channels ↦ Map.insert digest (channels ++ channel ∷ []) waiters
]

unfoldable pub update_pending : ℕ → Tree → Digest → List Digest → List Digest
unfolding is_pending
update_pending id tree digest pending = elim (get tree digest) [
  | none ↦ pending
  | some artifact ↦
      if is_pending id artifact then Set.insert digest pending else Set.remove digest pending
]

module _ (is_open : ℕ → Bool) where
  unfoldable pub send_all : List ℕ → List ℕ → Outcome (List ℕ)
  send_all [] woken = ok woken
  send_all (channel ∷ channels) woken =
      let rest = send_all channels (woken ++ channel ∷ []) in
      if is_open channel then rest else panic

  -- the waiters that are left, and the channels that were sent to
  unfoldable pub wake :
      Digest → Map Digest (List ℕ) → List ℕ → Outcome (Map Digest (List ℕ) × List ℕ)
  unfolding send_all
  wake digest waiters woken = elim (Map.lookup digest waiters) [
    | none ↦ ok (waiters, woken)
    | some channels ↦ do woken' ← send_all channels woken; ok (Map.remove digest waiters, woken')
  ]

  abbrev pub wake_if :
      Bool → Digest → Map Digest (List ℕ) → List ℕ → Outcome (Map Digest (List ℕ) × List ℕ)
  wake_if here digest waiters woken =
      if here then wake digest waiters woken else ok (waiters, woken)

  -- one round of the second loop of `apply_to_state_machine`, over the actions
  unfoldable pub note_action : ℕ → Db → RegistryAction → Watch → Outcome Watch
  note_action id db (blob_stored timestamp digest location user) w = do
    (waiters, woken) ← wake_if (location == id) digest w.blob_waiters w.woken
    ok (record w {
      pending_blobs = update_pending id db.blobs digest w.pending_blobs;
      blob_waiters = waiters;
      woken = woken;
    })
  note_action id db (blob_unstored timestamp digest location user) w =
      ok (record w { pending_blobs = update_pending id db.blobs digest w.pending_blobs })
  note_action id db (manifest_stored timestamp digest location user) w = do
    (waiters, woken) ← wake_if (location == id) digest w.manifest_waiters w.woken
    ok (record w {
      pending_manifests = update_pending id db.manifests digest w.pending_manifests;
      manifest_waiters = waiters;
      woken = woken;
    })
  note_action id db (manifest_unstored timestamp digest location user) w =
      ok
        (record w { pending_manifests = update_pending id db.manifests digest w.pending_manifests })
  note_action id db _ w = ok w

  unfoldable pub note_actions : ℕ → Db → List RegistryAction → Watch → Outcome Watch
  unfolding note_action
  note_actions id db [] w = ok w
  note_actions id db (action ∷ actions) w = do
    w' ← note_action id db action w
    note_actions id db actions w'

  unfoldable pub note_entries : ℕ → Db → List Entry → Watch → Outcome Watch
  unfolding note_actions
  note_entries id db [] w = ok w
  note_entries id db (entry ∷ entries) w = do
    w' ← note_actions id db (actions_of entry.payload) w
    note_entries id db entries w'

  -- All entries are applied before the second loop reads the trees.
  unfoldable pub apply_to_state_machine :
      List Entry → RegistryStore → Outcome (RegistryStore × List RegistryResponse)
  unfolding apply_entries note_entries
  apply_to_state_machine entries s = do
    (db, responses) ← apply_entries entries s.db
    watch ← note_entries s.id db entries s.watch
    ok (record s { db = db; watch = watch }, responses)
