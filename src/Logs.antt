-- ===== src/Logs.antt =====
-- The raft log of src/store/mod.rs: the sled tree `logs`, whose keys are the big-endian indexes of
-- the entries, so that sled's order of keys is the order of indexes. A tree is the list of its rows
-- in that order. `last_purged_log_id` and the vote are rows of the tree
-- `store`. Indexes are u64: `+ 1` on one wraps, as in a release build.
pub mod Order
pub mod Reads
pub mod Deletes
pub mod Keys
use distribd.Prelude.{
  ltb, leb, ℕ, ◌+◌, ◌-◌, ◌^◌, ◌%◌, Option, none, some, List, [], ◌∷◌, Outcome, ok, panic, ◌>>=◌,
  if◌then◌else◌, ◌==◌, Bool, true, false, ◌&&◌, not, nat_eq,
}
use distribd.Raft.{LogId, Entry, Vote}

abbrev pub u64_mod : ℕ
u64_mod = 2 ^ 64

abbrev pub Rows : Type 0
Rows = List (ℕ × Entry)

pub record Logs : Type 0 where
  pub rows : Rows
  pub last_purged_log_id : Option LogId
  pub vote : Option Vote

pub data Bound : Type 0 where
  included excluded : ℕ → Bound
  unbounded : Bound

-- `RangeBounds::contains`
abbrev pub above : Bound → ℕ → Bool
above (included x) i = leb x i
above (excluded x) i = ltb x i
above unbounded i = true

abbrev pub below : Bound → ℕ → Bool
below (included x) i = leb i x
below (excluded x) i = ltb i x
below unbounded i = true

abbrev pub in_range : Bound → Bound → ℕ → Bool
in_range lo hi i = above lo i && below hi i

abbrev pub start_key : Bound → ℕ
start_key (included x) = x
start_key (excluded x) = (x + 1) % u64_mod
start_key unbounded = 0

-- sled's `range(start..)`: the rows from the first key that is not below `start`
unfoldable pub rows_from : ℕ → Rows → Rows
rows_from start [] = []
rows_from start ((key, entry) ∷ rows) =
    let rest = rows_from start rows in if ltb key start then rest else (key, entry) ∷ rows

-- The `map`, which asserts that the key is the entry's index, and the `take_while` behind it.
unfoldable pub take_rows : Bound → Bound → Rows → Outcome (List Entry)
take_rows lo hi [] = ok []
take_rows lo hi ((key, entry) ∷ rows) =
    let rest = (do entries ← take_rows lo hi rows; ok (entry ∷ entries)) in
    if key == entry.log_id.index then (if in_range lo hi key then rest else ok []) else panic

unfoldable pub try_get_log_entries : Bound → Bound → Logs → Outcome (List Entry)
unfolding rows_from take_rows
try_get_log_entries lo hi logs = take_rows lo hi (rows_from (start_key lo) logs.rows)

-- sled's `insert`: the row takes its place in the order of keys, or the place of its key's old row
unfoldable pub insert_row : ℕ → Entry → Rows → Rows
insert_row key entry [] = (key, entry) ∷ []
insert_row key entry ((k, e) ∷ rows) =
    let rest = insert_row key entry rows in
    if key == k
    then (key, entry) ∷ rows
    else if ltb key k
    then (key, entry) ∷ (k, e) ∷ rows
    else (k, e) ∷ rest

unfoldable pub insert_rows : List Entry → Rows → Rows
unfolding insert_row
insert_rows [] rows = rows
insert_rows (entry ∷ entries) rows = insert_rows entries (insert_row entry.log_id.index entry rows)

unfoldable pub append_to_log : List Entry → Logs → Logs
unfolding insert_rows
append_to_log entries logs = record logs { rows = insert_rows entries logs.rows }

-- removes the rows whose keys pass the test, the batch of deletions
unfoldable pub delete_rows : (ℕ → Bool) → Rows → Rows
delete_rows test [] = []
delete_rows test ((key, entry) ∷ rows) =
    let rest = delete_rows test rows in if test key then rest else (key, entry) ∷ rest

-- the range `from..to` with `to` the greatest key, which it leaves out
unfoldable pub delete_conflict_logs_since : LogId → Logs → Logs
unfolding delete_rows
delete_conflict_logs_since log_id logs = record logs {
  rows = delete_rows (λ key. leb log_id.index key && ltb key (u64_mod - 1)) logs.rows;
}

unfoldable pub purge_logs_upto : LogId → Logs → Logs
unfolding delete_rows
purge_logs_upto log_id logs = record logs {
  last_purged_log_id = some log_id;
  rows = delete_rows (λ key. leb key log_id.index) logs.rows;
}

unfoldable pub last_row : Rows → Option LogId
last_row [] = none
last_row ((key, entry) ∷ []) = some entry.log_id
last_row (_ ∷ row ∷ rows) = last_row (row ∷ rows)

pub record LogState : Type 0 where
  pub last_purged_log_id : Option LogId
  pub last_log_id : Option LogId

abbrev or_else : Option LogId → Option LogId → Option LogId
or_else (some a) b = some a
or_else none b = b

unfoldable pub get_log_state : Logs → LogState
unfolding last_row
get_log_state logs = record {
  last_purged_log_id = logs.last_purged_log_id;
  last_log_id = or_else (last_row logs.rows) logs.last_purged_log_id;
}

unfoldable pub save_vote : Vote → Logs → Logs
save_vote vote logs = record logs { vote = some vote }

abbrev pub read_vote : Logs → Option Vote
read_vote logs = logs.vote
