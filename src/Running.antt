-- ===== src/Running.antt =====
-- A running node: the store of src/store/mod.rs with the two tasks of `do_miroring` in src/mirror.rs
-- that watch its sets, as `start_raft_node` of src/lib.rs puts them together. The state machine holds
-- the senders of its two channels; a task subscribes once, when it starts. `channel` counts the state
-- machines that the store has had, and `subscribed` is the one whose channels the tasks read.
pub mod Watched
use distribd.Prelude.{
  ℕ, suc, Option, none, some, List, ok, if◌then◌else◌, ◌==◌, Bool, true, not, nat_eq, ◌≡◌, ◌≢◌,
}
use distribd.Prelude.Set
use distribd.Types.{Digest}
use distribd.Raft.{RegistryResponse, Entry}
use distribd.StateMachine.{Db}
use distribd.Store.{Watch, RegistryStore, new, add_waiter, apply_to_state_machine}
use distribd.Snapshot.{Serializable, from_serializable}
use distribd.Mirror.{Waiters, spawned}

pub record Node : Type 0 where
  pub store : RegistryStore
  pub channel : ℕ
  pub subscribed : ℕ
  -- what the tasks' channels hold
  pub shown_blobs : List Digest
  pub shown_manifests : List Digest
  -- the waiters of a task that still runs
  pub blob_task : Option Waiters
  pub manifest_task : Option Waiters

unfoldable pub start_raft_node : Db → ℕ → Node
start_raft_node db id =
    let store = new db id in
    record {
      store = store;
      channel = 0;
      subscribed = 0;
      shown_blobs = store.watch.pending_blobs;
      shown_manifests = store.watch.pending_manifests;
      blob_task = some (spawned store.watch.pending_blobs);
      manifest_task = some (spawned store.watch.pending_manifests);
    }

-- `send_replace` reaches the tasks if they read the channels of this state machine.
abbrev pub send_replace : RegistryStore → Node → Node
send_replace s n = record n {
  store = s;
  shown_blobs = if n.subscribed == n.channel then s.watch.pending_blobs else n.shown_blobs;
  shown_manifests =
      if n.subscribed == n.channel then s.watch.pending_manifests else n.shown_manifests;
}

abbrev pub wait_for_blob : Digest → ℕ → RegistryStore → RegistryStore
wait_for_blob digest sender s = record s {
  watch = record s.watch { blob_waiters = add_waiter digest sender s.watch.blob_waiters };
}

abbrev pub wait_for_manifest : Digest → ℕ → RegistryStore → RegistryStore
wait_for_manifest digest sender s = record s {
  watch = record s.watch { manifest_waiters = add_waiter digest sender s.watch.manifest_waiters };
}

-- the timer of a task, spawned again if what it read was not empty
abbrev pub timed_out : List Digest → Waiters → Waiters
timed_out pending w = record w { time = not (Set.is_empty pending) }

-- What happens on a node between two snapshots that it installs: entries are applied, a request
-- starts to wait, or a waiter of one of the two tasks ends. `changed` is an error once the senders of
-- the task's channel are gone, and the task breaks off.
pub data Quiet : Node → Node → Type 0 where
  applied :
      {n : Node} {s : RegistryStore} {responses : List RegistryResponse} (is_open : ℕ → Bool)
      (entries : List Entry)
      → apply_to_state_machine is_open entries n.store ≡ ok (s, responses)
      → Quiet n (send_replace s n)
  waits_for_blob :
      {n : Node} (digest : Digest) (sender : ℕ)
      → Quiet n (record n { store = wait_for_blob digest sender n.store })
  waits_for_manifest :
      {n : Node} (digest : Digest) (sender : ℕ)
      → Quiet n (record n { store = wait_for_manifest digest sender n.store })
  blobs_changed :
      {n : Node} {w : Waiters}
      → n.blob_task ≡ some w
      → w.change ≡ true
      → n.subscribed ≡ n.channel
      → Quiet n n
  manifests_changed :
      {n : Node} {w : Waiters}
      → n.manifest_task ≡ some w
      → w.change ≡ true
      → n.subscribed ≡ n.channel
      → Quiet n n
  blobs_timeout :
      {n : Node} {w : Waiters}
      → n.blob_task ≡ some w
      → w.time ≡ true
      → Quiet n (record n { blob_task = some (timed_out n.shown_blobs w) })
  manifests_timeout :
      {n : Node} {w : Waiters}
      → n.manifest_task ≡ some w
      → w.time ≡ true
      → Quiet n (record n { manifest_task = some (timed_out n.shown_manifests w) })
  blobs_closed :
      {n : Node} {w : Waiters}
      → n.blob_task ≡ some w
      → w.change ≡ true
      → n.subscribed ≢ n.channel
      → Quiet n (record n { blob_task = none })
  manifests_closed :
      {n : Node} {w : Waiters}
      → n.manifest_task ≡ some w
      → w.change ≡ true
      → n.subscribed ≢ n.channel
      → Quiet n (record n { manifest_task = none })

-- `install_snapshot`, once the snapshot was decoded: the new state machine has channels of its own,
-- and the old senders are dropped with the old one.
abbrev pub install : Serializable → Node → Node
install sm n = record n {
  store = from_serializable n.store.id sm n.store.db;
  channel = suc n.channel;
}

pub data Step : Node → Node → Type 0 where
  quiet : {n n' : Node} → Quiet n n' → Step n n'
  installed : {n : Node} (sm : Serializable) → Step n (install sm n)

pub data QuietSteps (n : Node) : Node → Type 0 where
  here : QuietSteps n n
  next : {n' n'' : Node} → QuietSteps n n' → Quiet n' n'' → QuietSteps n n''

pub data Steps (n : Node) : Node → Type 0 where
  here : Steps n n
  next : {n' n'' : Node} → Steps n n' → Step n' n'' → Steps n n''
