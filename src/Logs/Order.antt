-- ===== src/Logs/Order.antt =====
-- The invariant of the log's tree: strictly rising keys below 2 ^ 64, each its entry's index.
use distribd.Prelude.{All, ℕ, ◌+◌, ◌<◌, ◌≤◌, ◌≡◌, List, [], ◌∷◌, arith, Bool, nat_eq, refl}
use distribd.Raft.{LogId, Entry}
use distribd.Logs.{
  Rows, Logs, u64_mod, insert_row, insert_rows, append_to_log, delete_rows,
  delete_conflict_logs_since, purge_logs_upto,
}

-- keys from `low` on
abbrev pub IsRising : ℕ → Rows → Type 0
IsRising low [] = Unit {0}
IsRising low ((key, entry) ∷ rows) =
    (low ≤ key) × (key < u64_mod) × (key ≡ entry.log_id.index) × IsRising (key + 1) rows

abbrev pub IsOrdered : Logs → Type 0
IsOrdered logs = IsRising 0 logs.rows

pub IsRising-weaken :
    {low low' : ℕ} (rows : Rows) → low ≤ low' → IsRising low' rows → IsRising low rows
IsRising-weaken [] h r = tt
IsRising-weaken ((key, entry) ∷ rows) h r = (omega arith, r.1, r.2, r.3)

insert_row-IsRising :
    (low : ℕ) (entry : Entry) (rows : Rows)
    → low ≤ entry.log_id.index
    → entry.log_id.index < u64_mod
    → IsRising low rows
    → IsRising low (insert_row entry.log_id.index entry rows)
unfolding insert_row
insert_row-IsRising low entry [] h b r = (h, b, refl, tt)
insert_row-IsRising low entry ((k, e) ∷ rows) h b r = ground (
  arith,
  insert_row-IsRising (k + 1) entry rows,
  IsRising-weaken {low = entry.log_id.index + 1} {low' = k + 1} rows,
)

insert_rows-IsRising :
    (entries : List Entry) (rows : Rows)
    → All (λ e. e.log_id.index < u64_mod) entries
    → IsRising 0 rows
    → IsRising 0 (insert_rows entries rows)
unfolding insert_rows
insert_rows-IsRising [] rows h r = r
insert_rows-IsRising (e ∷ entries) rows h r =
    insert_rows-IsRising entries _ h.1 (insert_row-IsRising 0 e rows (omega arith) h.0 r)

delete_rows-IsRising :
    (test : ℕ → Bool) (low : ℕ) (rows : Rows)
    → IsRising low rows
    → IsRising low (delete_rows test rows)
unfolding delete_rows
delete_rows-IsRising test low [] r = tt
delete_rows-IsRising test low ((k, e) ∷ rows) r = ground (
  arith,
  delete_rows-IsRising test (k + 1) rows,
  IsRising-weaken {low = low} {low' = k + 1} (delete_rows test rows),
)

-- Appending entries with 64-bit indexes, deleting a conflicting tail and purging a prefix keep the
-- rows in strictly rising order of index, each under its entry's index.
pub logs-IsOrdered :
    (logs : Logs) (entries : List Entry) (log_id : LogId)
    → IsOrdered logs
    → All (λ e. e.log_id.index < u64_mod) entries
    → IsOrdered (append_to_log entries logs)
      × IsOrdered (delete_conflict_logs_since log_id logs)
      × IsOrdered (purge_logs_upto log_id logs)
unfolding append_to_log delete_conflict_logs_since purge_logs_upto
logs-IsOrdered logs entries log_id o h = (
  insert_rows-IsRising entries logs.rows h o,
  delete_rows-IsRising _ 0 logs.rows o,
  delete_rows-IsRising _ 0 logs.rows o,
)
