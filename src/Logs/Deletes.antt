-- ===== src/Logs/Deletes.antt =====
-- What the deletions and the appends leave to be read, and the state of the log.
use distribd.Prelude.{
  ltb, leb, ℕ, ◌-◌, ◌≡◌, List, [], ◌∷◌, arith, Bool, if◌then◌else◌, ◌==◌, nat_eq, refl, ◌&&◌, not,
  Option, none, some, ok, ◌∙◌, ap,
}
use distribd.Raft.{LogId, Entry}
use distribd.Logs.{
  Rows, Logs, u64_mod, Bound, in_range, delete_rows, delete_conflict_logs_since, purge_logs_upto,
  try_get_log_entries, insert_row, insert_rows, append_to_log,
}
use distribd.Logs.Order.{IsOrdered, logs-IsOrdered}
use distribd.Logs.Reads.{select, try_get_log_entries-select}

select-delete_rows :
    (p test : ℕ → Bool) (rows : Rows)
    → select p (delete_rows test rows) ≡ select (λ i. p i && not (test i)) rows
unfolding select delete_rows
select-delete_rows p test [] = refl
select-delete_rows p test ((k, e) ∷ rows) = ground (arith, select-delete_rows p test rows)

module _ (lo hi : Bound) (logs : Logs) (log_id : LogId) (ordered : IsOrdered logs) where
  -- After a purge, a read of any range returns the entries of the range behind the purged index.
  pub try_get_log_entries-purge_logs_upto :
      try_get_log_entries lo hi (purge_logs_upto log_id logs)
      ≡ ok (select (λ i. in_range lo hi i && not (leb i log_id.index)) logs.rows)
  unfolding purge_logs_upto
  try_get_log_entries-purge_logs_upto =
      try_get_log_entries-select lo hi (purge_logs_upto log_id logs)
        (logs-IsOrdered logs [] log_id ordered tt).2
      ∙ ap ok (select-delete_rows (in_range lo hi) _ logs.rows)

  -- After the deletion of a conflicting tail, a read of any range returns the entries of the range
  -- before that index, and the entry of index 2 ^ 64 - 1 if it is in the range.
  pub try_get_log_entries-delete_conflict_logs_since :
      try_get_log_entries lo hi (delete_conflict_logs_since log_id logs)
      ≡ ok (
          select
            (λ i. in_range lo hi i && not (leb log_id.index i && ltb i (u64_mod - 1)))
            logs.rows)
  unfolding delete_conflict_logs_since
  try_get_log_entries-delete_conflict_logs_since =
      try_get_log_entries-select lo hi (delete_conflict_logs_since log_id logs)
        (logs-IsOrdered logs [] log_id ordered tt).1
      ∙ ap ok (select-delete_rows (in_range lo hi) _ logs.rows)

-- the entry of an index
unfoldable pub row_at : ℕ → Rows → Option Entry
row_at i [] = none
row_at i ((k, e) ∷ rows) = if k == i then some e else row_at i rows

-- the last of the entries that has the index, or else the old one
unfoldable pub overwrite : ℕ → List Entry → Option Entry → Option Entry
overwrite i [] old = old
overwrite i (e ∷ entries) old = overwrite i entries (if e.log_id.index == i then some e else old)

row_at-insert_row :
    (i key : ℕ) (entry : Entry) (rows : Rows)
    → row_at i (insert_row key entry rows) ≡ (if key == i then some entry else row_at i rows)
unfolding row_at insert_row
row_at-insert_row i key entry [] = refl
row_at-insert_row i key entry ((k, e) ∷ rows) = ground (arith, row_at-insert_row i key entry rows)

row_at-insert_rows :
    (i : ℕ) (entries : List Entry) (rows : Rows)
    → row_at i (insert_rows entries rows) ≡ overwrite i entries (row_at i rows)
unfolding insert_rows overwrite
row_at-insert_rows i [] rows = refl
row_at-insert_rows i (e ∷ entries) rows =
    row_at-insert_rows i entries _
    ∙ ap (overwrite i entries) (row_at-insert_row i e.log_id.index e rows)

-- An append overwrites the rows of its entries' indexes, a later entry of one index winning, and
-- changes no other row.
pub row_at-append_to_log :
    (i : ℕ) (entries : List Entry) (logs : Logs)
    → row_at i (append_to_log entries logs).rows ≡ overwrite i entries (row_at i logs.rows)
unfolding append_to_log
row_at-append_to_log i entries logs = row_at-insert_rows i entries logs.rows
