-- ===== src/Tests/Nodes.antt =====
-- A running node.
use distribd.Prelude.{none, [], ◌∷◌, ◌≢◌, refl, arith}
use distribd.StateMachine.{fresh}
use distribd.Store.{new, collect_pending}
use distribd.Snapshot.{serialize}
use distribd.Running.{
  Node, start_raft_node, send_replace, applied, blobs_closed, install, QuietSteps, quiet, Steps,
}
use distribd.Running.Watched.{IsWatched, start_raft_node-IsWatched, IsBlind, install-IsBlind}
use distribd.Tests.{with_layer, entry_one}
use distribd.Tests.Machine.{all_open, node_two_after, node_two_applied}

abbrev started : Node
started = start_raft_node fresh 2

abbrev after_one : Node
after_one = send_replace node_two_after started

one_step : QuietSteps started after_one
unfolding start_raft_node new collect_pending
one_step = QuietSteps.next QuietSteps.here (applied all_open (entry_one ∷ []) node_two_applied)

start_raft_node-IsWatched_example : IsWatched after_one
start_raft_node-IsWatched_example = start_raft_node-IsWatched fresh 2 one_step

abbrev after_snapshot : Node
after_snapshot = install (serialize with_layer) started

-- the blob task waits for a change and ends
no_sender : after_snapshot.subscribed ≢ after_snapshot.channel
unfolding start_raft_node
no_sender p = omega (arith, p)

task_ends : Steps after_snapshot (record after_snapshot { blob_task = none })
unfolding start_raft_node
task_ends = Steps.next Steps.here (quiet (blobs_closed refl refl no_sender))

install-IsBlind_example : IsBlind started (record after_snapshot { blob_task = none })
install-IsBlind_example =
    install-IsBlind fresh 2 started (record after_snapshot { blob_task = none })
      (serialize with_layer) Steps.here task_ends
