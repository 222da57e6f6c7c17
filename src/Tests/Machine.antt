-- ===== src/Tests/Machine.antt =====
-- The state machine, the store and its log.
use distribd.Prelude.{
  ℕ, none, List, [], ◌∷◌, ok, panic, ◌≡◌, refl, nat_eq, str_dec, true, not, ◌&&◌, Bool, leb, ltb,
  ◌-◌, arith,
}
use distribd.Prelude.Set
use distribd.Prelude.Map
use distribd.Types.{
  digest_eq, Digest, Digest-discrete, RepositoryName-discrete, RegistryAction, blob_stored,
}
use distribd.Raft.{RegistryResponse, Entry}
use distribd.StateMachine.{
  fresh, stored, mounted, apply_action, apply_actions, apply_payload, apply_entry, apply_entries,
}
use distribd.StateMachine.Refinement.{Agrees, Panics, apply_actions-Agrees, apply_actions-panic}
use distribd.StateMachine.Batches.{Applied, apply_entries-Applied}
use distribd.StateMachine.Keys.{IsKeyed}
use distribd.Store.{
  RegistryStore, new_watch, is_pending, update_pending, wake, note_action, note_actions,
  note_entries, apply_to_state_machine,
}
use distribd.Logs.{
  Logs, included, unbounded, in_range, try_get_log_entries, append_to_log,
  delete_conflict_logs_since, purge_logs_upto, u64_mod,
}
use distribd.Logs.Order.{IsOrdered, logs-IsOrdered}
use distribd.Logs.Reads.{select, try_get_log_entries-select}
use distribd.Logs.Deletes.{try_get_log_entries-delete_conflict_logs_since}
use native.Mathlib.Decide
use distribd.Tests.{mount_and_store, with_layer, layer, entry_one, after_entry, node_two, log_id_at}

mount_and_store_applied : apply_actions mount_and_store fresh ≡ ok with_layer
unfolding apply_actions apply_action mounted stored Map.lookup Map.insert Set.insert Set.contains
    Digest-discrete RepositoryName-discrete str_dec
mount_and_store_applied = refl

abbrev unknown_blob : List RegistryAction
unknown_blob = blob_stored 1 layer 1 "alice" ∷ []

unknown_blob_panics : apply_actions unknown_blob fresh ≡ panic
unfolding apply_actions apply_action stored Map.lookup
unknown_blob_panics = refl

apply_actions-Agrees_example : Agrees mount_and_store fresh with_layer
apply_actions-Agrees_example = apply_actions-Agrees mount_and_store fresh mount_and_store_applied

apply_actions-panic_example : (d : Digest) × Panics unknown_blob fresh d
apply_actions-panic_example = apply_actions-panic unknown_blob fresh unknown_blob_panics

abbrev pub one_answer : List RegistryResponse
one_answer = record { value = 1 } ∷ []

pub entry_one_applied : apply_entries (entry_one ∷ []) fresh ≡ ok (after_entry, one_answer)
unfolding apply_entries apply_entry apply_payload apply_actions apply_action mounted stored
    Map.lookup Map.insert Set.insert Set.contains Digest-discrete RepositoryName-discrete str_dec
entry_one_applied = refl

apply_entries-Applied_example : Applied (entry_one ∷ []) fresh after_entry one_answer
apply_entries-Applied_example = apply_entries-Applied (entry_one ∷ []) fresh entry_one_applied

fresh-IsKeyed : IsKeyed fresh
fresh-IsKeyed = record { blobs = tt; manifests = tt; tags = tt }

abbrev pub all_open : ℕ → Bool
all_open channel = true

abbrev pub node_two_after : RegistryStore
node_two_after = record { id = 2; db = after_entry; watch = new_watch (layer ∷ []) [] }

pub node_two_applied :
    apply_to_state_machine all_open (entry_one ∷ []) node_two ≡ ok (node_two_after, one_answer)
unfolding apply_to_state_machine note_entries note_actions note_action update_pending is_pending
    wake apply_entries apply_entry apply_payload apply_actions apply_action mounted stored
    Map.lookup Map.insert Set.insert Set.contains Digest-discrete RepositoryName-discrete str_dec
    native.Mathlib.Decide.ℕ_discrete
node_two_applied = refl

abbrev entry_two : Entry
entry_two = record entry_one { log_id = log_id_at 2 }

abbrev two_rows : Logs
two_rows = record {
  rows = (1, entry_one) ∷ (2, entry_two) ∷ [];
  last_purged_log_id = none;
  vote = none;
}

two_rows-IsOrdered : IsOrdered two_rows
two_rows-IsOrdered = (omega arith, omega arith, refl, (omega arith, omega arith, refl, tt))

logs-IsOrdered_example :
    IsOrdered (append_to_log (entry_two ∷ []) two_rows)
    × IsOrdered (delete_conflict_logs_since (log_id_at 2) two_rows)
    × IsOrdered (purge_logs_upto (log_id_at 2) two_rows)
logs-IsOrdered_example =
    logs-IsOrdered two_rows (entry_two ∷ []) (log_id_at 2) two_rows-IsOrdered (omega arith, tt)

try_get_log_entries-select_example :
    try_get_log_entries (included 2) unbounded two_rows
    ≡ ok (select (in_range (included 2) unbounded) two_rows.rows)
try_get_log_entries-select_example =
    try_get_log_entries-select (included 2) unbounded two_rows two_rows-IsOrdered

try_get_log_entries-delete_conflict_logs_since_example :
    try_get_log_entries unbounded unbounded (delete_conflict_logs_since (log_id_at 2) two_rows)
    ≡ ok (
        select
          (λ i. in_range unbounded unbounded i && not (leb 2 i && ltb i (u64_mod - 1)))
          two_rows.rows)
try_get_log_entries-delete_conflict_logs_since_example =
    try_get_log_entries-delete_conflict_logs_since unbounded unbounded two_rows (log_id_at 2)
      two_rows-IsOrdered
