-- ===== src/Lib.antt =====
-- distribd is a container registry whose metadata is replicated by raft. Each node keeps the metadata
-- in sled trees, applies committed transactions to them, and mirrors the files of blobs and manifests
-- that other nodes have. HTTP handlers read the trees and submit transactions.
--
-- How the parts are modelled (paths from the repository's root):
--   Types, Raft: src/types, and the data of openraft that the store reads; Types/Digests.
--   StateMachine: the trees and the transaction of `apply_to_state_machine` in src/store/mod.rs, one
--     function per action. Artifacts, Refinement, Batches and Keys hold its theorems.
--   Store: the sets of objects to mirror and the waiters beside the trees; Store/Pending,
--     Store/Waiters, and action by action Store/Rechecks, Store/Notes, Store/Wakes.
--   Logs: the raft log in its sled tree; Logs/Order, Logs/Reads, Logs/Deletes, Logs/Keys.
--   Orphans: `get_orphaned_blobs` and `get_orphaned_manifests`; the loop has fuel, and `enough` of it
--     is one more than the number of dependencies, since each round visits a new digest.
--   Snapshot: building and installing snapshots.
--   Garbage: src/garbage.rs, its two sweeps and the loop over them; Garbage/Files is the removal of a file.
--   Management: import and export of src/network/management.rs; Management/Import,
--     with Management/Copies and Management/Retags for one digest and one tag, and Management/Export.
--   Token: src/extractors/token.rs.
--   Paths, Config: src/utils.rs and src/config.rs. Settings: the single rows of src/store/mod.rs.
--   Fsck: the check of a node in src/bin/main.rs; Fsck/Loops, Fsck/Repair, Fsck/Reports.
--   Running: the store and the mirror tasks of one node, as src/lib.rs starts them.
--   Mirror: src/mirror.rs; Mirror/Transfers, Mirror/Changes, Mirror/Passes. A pass yields the
--     transactions that it submits, and sees a database of its own at each request.
--   Webhook: src/webhook.rs; Webhook/Deliveries. Metrics: src/store/metrics.rs, over the reports of
--     openraft; Metrics/Shown, Metrics/Families, Metrics/Latest.
--   Extractor: src/extractor.rs; the loop has fuel, and `enough` of it is three more than the number of
--     blobs, since each round but the last two analyses a new one. Extractor/Ends, Extractor/Allowed.
--   Http: the handlers of src/registry. Http/Sessions follows an upload, Http/Sessions/Whole from its
--     start to its end; Http/Push puts a push, its analysis and a pull together;
--     Http/Tags is the tag list over `get_tags`, which Store/Tags models.
--   Client: src/client.rs and the writes of src/app.rs; Client/Leader, Client/Writes.
--   Network: the endpoints of src/network/raft.rs that serve files to other nodes.
--   Tests: concrete inputs.
-- The handlers and the sweeps produce transactions, the lists of actions that StateMachine applies;
-- Store applies them through StateMachine and then looks at the trees. A panic is the outcome `panic`.
-- Numbers of w bits are natural numbers, with wrap-around written out where the code can wrap.
--
-- Not modelled: errors of sled and of the disk, the text of responses, the HTTP counters, TLS, and
-- openraft itself. Times are whole seconds, a handler and the start of a node are one step each, and
-- how a wait for a download ended shows only in whether the file is there. Libraries (serde_json, the JWT verifier, the hash function) are parameters.
pub mod Prelude
pub mod Types
pub mod Paths
pub mod Config
pub mod Raft
pub mod StateMachine
pub mod Store
pub mod Logs
pub mod Settings
pub mod Orphans
pub mod Snapshot
pub mod Garbage
pub mod Management
pub mod Fsck
pub mod Token
pub mod Http
pub mod Mirror
pub mod Metrics
pub mod Running
pub mod Webhook
pub mod Extractor
pub mod Client
pub mod Network
pub mod Tests
