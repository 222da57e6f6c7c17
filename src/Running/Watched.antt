-- ===== src/Running/Watched.antt =====
-- What the tasks of a running node see.
use distribd.Prelude.{ℕ, ◌≤◌, ◌<◌, Option, none, some, true, nat_eq, ◌≡◌, refl, subst, ◌∙◌, arith}
use distribd.Types.{digest_eq}
use distribd.StateMachine.{Db}
use distribd.Store.Pending.{IsCovered, apply_to_state_machine-IsCovered, new-IsCovered}
use distribd.Snapshot.{Serializable}
use distribd.Mirror.{Waiters}
use distribd.Running.{
  Node, start_raft_node, Quiet, applied, waits_for_blob, waits_for_manifest, blobs_changed,
  manifests_changed, blobs_timeout, manifests_timeout, blobs_closed, manifests_closed, install,
  quiet, installed, QuietSteps, Steps,
}

-- A task that runs and waits for a change.
abbrev IsListening : Option Waiters → Type 0
IsListening none = ⊥
IsListening (some w) = w.change ≡ true

-- The tasks run, and see the sets of the store, in which every object to mirror is.
pub record IsWatched (n : Node) : Type 0 where
  pub covered : IsCovered n.store
  pub same_channel : n.subscribed ≡ n.channel
  pub blobs : n.shown_blobs ≡ n.store.watch.pending_blobs
  pub manifests : n.shown_manifests ≡ n.store.watch.pending_manifests
  pub blob_task : IsListening n.blob_task
  pub manifest_task : IsListening n.manifest_task

started-IsWatched : (db : Db) (id : ℕ) → IsWatched (start_raft_node db id)
unfolding start_raft_node
started-IsWatched db id = record {
  covered = new-IsCovered db id;
  same_channel = refl;
  blobs = refl;
  manifests = refl;
  blob_task = refl;
  manifest_task = refl;
}

Quiet-IsWatched : {n n' : Node} → Quiet n n' → IsWatched n → IsWatched n'
Quiet-IsWatched (applied {n} {s} {responses} is_open entries h) k = record {
  covered = apply_to_state_machine-IsCovered is_open entries n.store s responses h k.covered;
  same_channel = k.same_channel;
  blobs = ground (arith, k.same_channel);
  manifests = ground (arith, k.same_channel);
  blob_task = k.blob_task;
  manifest_task = k.manifest_task;
}
Quiet-IsWatched (waits_for_blob {n} digest sender) k = record {
  covered = record { blob = k.covered.blob; manifest = k.covered.manifest };
  same_channel = k.same_channel;
  blobs = k.blobs;
  manifests = k.manifests;
  blob_task = k.blob_task;
  manifest_task = k.manifest_task;
}
Quiet-IsWatched (waits_for_manifest {n} digest sender) k = record {
  covered = record { blob = k.covered.blob; manifest = k.covered.manifest };
  same_channel = k.same_channel;
  blobs = k.blobs;
  manifests = k.manifests;
  blob_task = k.blob_task;
  manifest_task = k.manifest_task;
}
Quiet-IsWatched (blobs_changed e l c) k = k
Quiet-IsWatched (manifests_changed e l c) k = k
Quiet-IsWatched (blobs_timeout {n} {w} e l) k = record {
  covered = k.covered;
  same_channel = k.same_channel;
  blobs = k.blobs;
  manifests = k.manifests;
  blob_task = subst IsListening e k.blob_task;
  manifest_task = k.manifest_task;
}
Quiet-IsWatched (manifests_timeout {n} {w} e l) k = record {
  covered = k.covered;
  same_channel = k.same_channel;
  blobs = k.blobs;
  manifests = k.manifests;
  blob_task = k.blob_task;
  manifest_task = subst IsListening e k.manifest_task;
}
Quiet-IsWatched (blobs_closed e l c) k = absurd (c k.same_channel)
Quiet-IsWatched (manifests_closed e l c) k = absurd (c k.same_channel)

-- On a node that has installed no snapshot since it was started, whatever it has applied, both mirror
-- tasks run and wait for changes, and what they see has every object that another node has and this
-- one lacks.
pub start_raft_node-IsWatched :
    (db : Db) (id : ℕ) {n : Node} → QuietSteps (start_raft_node db id) n → IsWatched n
start_raft_node-IsWatched db id QuietSteps.here = started-IsWatched db id
start_raft_node-IsWatched db id (QuietSteps.next steps q) =
    Quiet-IsWatched q (start_raft_node-IsWatched db id steps)

-- What the tasks of `n` see when their channels are gone, and see for ever.
pub record IsBlind (n n' : Node) : Type 0 where
  pub gone : n'.subscribed < n'.channel
  pub blobs : n'.shown_blobs ≡ n.shown_blobs
  pub manifests : n'.shown_manifests ≡ n.shown_manifests

Quiet-channels :
    {n n' : Node} → Quiet n n' → (n'.subscribed ≡ n.subscribed) × (n'.channel ≡ n.channel)
Quiet-channels (applied is_open entries h) = (refl, refl)
Quiet-channels (waits_for_blob digest sender) = (refl, refl)
Quiet-channels (waits_for_manifest digest sender) = (refl, refl)
Quiet-channels (blobs_changed e l c) = (refl, refl)
Quiet-channels (manifests_changed e l c) = (refl, refl)
Quiet-channels (blobs_timeout e l) = (refl, refl)
Quiet-channels (manifests_timeout e l) = (refl, refl)
Quiet-channels (blobs_closed e l c) = (refl, refl)
Quiet-channels (manifests_closed e l c) = (refl, refl)

Quiet-shown :
    {n n' : Node}
    → Quiet n n'
    → n.subscribed < n.channel
    → (n'.shown_blobs ≡ n.shown_blobs) × (n'.shown_manifests ≡ n.shown_manifests)
Quiet-shown (applied is_open entries h) l = (ground (arith, l), ground (arith, l))
Quiet-shown (waits_for_blob digest sender) l = (refl, refl)
Quiet-shown (waits_for_manifest digest sender) l = (refl, refl)
Quiet-shown (blobs_changed e h c) l = (refl, refl)
Quiet-shown (manifests_changed e h c) l = (refl, refl)
Quiet-shown (blobs_timeout e h) l = (refl, refl)
Quiet-shown (manifests_timeout e h) l = (refl, refl)
Quiet-shown (blobs_closed e h c) l = (refl, refl)
Quiet-shown (manifests_closed e h c) l = (refl, refl)

Steps-channels :
    (db : Db) (id : ℕ) {n : Node} → Steps (start_raft_node db id) n → n.subscribed ≤ n.channel
unfolding start_raft_node
Steps-channels db id Steps.here = omega arith
Steps-channels db id (Steps.next steps (quiet q)) =
    omega (arith, Steps-channels db id steps, Quiet-channels q)
Steps-channels db id (Steps.next steps (installed sm)) = omega (arith, Steps-channels db id steps)

Steps-IsBlind : (n : Node) {m m' : Node} → IsBlind n m → Steps m m' → IsBlind n m'
Steps-IsBlind n blind Steps.here = blind
Steps-IsBlind n blind (Steps.next steps (quiet q)) =
    let before = Steps-IsBlind n blind steps in
    let shown = Quiet-shown q before.gone in
    let channels = Quiet-channels q in
    record {
      gone = omega (arith, before.gone, channels);
      blobs = shown.0 ∙ before.blobs;
      manifests = shown.1 ∙ before.manifests;
    }
Steps-IsBlind n blind (Steps.next steps (installed sm)) =
    let before = Steps-IsBlind n blind steps in
    record { gone = omega (arith, before.gone); blobs = before.blobs; manifests = before.manifests }

-- Once a node has installed a snapshot, whatever happens on it then, the mirror tasks see what they
-- saw before, and nothing of what the snapshot or a later entry makes pending: they read channels
-- whose senders are gone, so that to wait for a change ends them.
pub install-IsBlind :
    (db : Db) (id : ℕ) (n n' : Node) (sm : Serializable)
    → Steps (start_raft_node db id) n
    → Steps (install sm n) n'
    → IsBlind n n'
install-IsBlind db id n n' sm before after =
    let channels = Steps-channels db id before in
    Steps-IsBlind n (record { gone = omega (arith, channels); blobs = refl; manifests = refl })
      after
