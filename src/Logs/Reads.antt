-- ===== src/Logs/Reads.antt =====
-- What `try_get_log_entries` returns: the entries in the range, with no panic, on ordered logs.
use distribd.Prelude.{
  ltb, ℕ, ◌+◌, ◌<◌, ◌≤◌, ◌≡◌, List, [], ◌∷◌, arith, Bool, true, false, if◌then◌else◌, nat_eq, refl,
  ok, ◌∙◌, Bool-cases, inl, inr, ◌⊎◌, ap, sym,
}
use distribd.Raft.{Entry}
use distribd.Logs.{
  Rows, Logs, u64_mod, Bound, included, excluded, unbounded, above, below, in_range, start_key,
  rows_from, take_rows, try_get_log_entries,
}
use distribd.Logs.Order.{IsRising, IsOrdered}

-- the entries of the rows whose keys pass the test
unfoldable pub select : (ℕ → Bool) → Rows → List Entry
select test [] = []
select test ((key, entry) ∷ rows) =
    let rest = select test rows in if test key then entry ∷ rest else rest

above_mono : (lo : Bound) (i j : ℕ) → i ≤ j → above lo i ≡ true → above lo j ≡ true
above_mono (included x) i j h a = ground arith
above_mono (excluded x) i j h a = ground arith
above_mono unbounded i j h a = refl

below_anti : (hi : Bound) (i j : ℕ) → i ≤ j → below hi i ≡ false → below hi j ≡ false
below_anti (included x) i j h a = ground arith
below_anti (excluded x) i j h a = ground arith
below_anti unbounded i j h a = ground arith

-- a key below the start is below the range
start_skips : (lo : Bound) (key : ℕ) → key < start_key lo → above lo key ≡ false
start_skips (included x) key h = ground arith
start_skips (excluded x) key h = ground arith
start_skips unbounded key h = elim h [ ]

-- the start is the least key above the bound, unless the addition wrapped
start_above :
    (lo : Bound)
    → (above lo (start_key lo) ≡ true) ⊎ ((key : ℕ) → key < u64_mod → above lo key ≡ false)
start_above (included x) = inl (ground arith)
start_above (excluded x) = elim (Bool-cases (ltb (x + 1) u64_mod)) [
  | inl fits ↦ inl (ground arith)
  | inr wraps ↦ inr (λ key h. ground arith)
]
start_above unbounded = inl refl

module _ (lo hi : Bound) where
  -- nothing is selected where the upper bound, or the lower one, rules out every key
  select_past :
      (low : ℕ) (rows : Rows)
      → below hi low ≡ false
      → IsRising low rows
      → select (in_range lo hi) rows ≡ []
  unfolding select
  select_past low [] out r = refl
  select_past low ((k, e) ∷ rows) out r =
      ground (arith, below_anti hi low k, below_anti hi low (k + 1), select_past (k + 1) rows)

  select_none :
      (low : ℕ) (rows : Rows)
      → ((key : ℕ) → key < u64_mod → above lo key ≡ false)
      → IsRising low rows
      → select (in_range lo hi) rows ≡ []
  unfolding select
  select_none low [] out r = refl
  select_none low ((k, e) ∷ rows) out r =
      ground (arith, out k r.1, select_none (k + 1) rows out r.3)

  take_rows-none :
      (low : ℕ) (rows : Rows)
      → ((key : ℕ) → key < u64_mod → above lo key ≡ false)
      → IsRising low rows
      → take_rows lo hi rows ≡ ok []
  unfolding take_rows
  take_rows-none low [] out r = refl
  take_rows-none low ((k, e) ∷ rows) out r = ground (arith, out k r.1)

  take_rows-select :
      (low : ℕ) (rows : Rows)
      → above lo low ≡ true
      → IsRising low rows
      → take_rows lo hi rows ≡ ok (select (in_range lo hi) rows)
  unfolding take_rows select
  take_rows-select low [] a r = refl
  take_rows-select low ((k, e) ∷ rows) a r = ground (
    arith,
    above_mono lo low k,
    above_mono lo low (k + 1),
    below_anti hi k (k + 1),
    take_rows-select (k + 1) rows,
    select_past (k + 1) rows,
  )

  rows_from-IsRising :
      (start low : ℕ) (rows : Rows) → IsRising low rows → IsRising start (rows_from start rows)
  unfolding rows_from
  rows_from-IsRising start low [] r = tt
  rows_from-IsRising start low ((k, e) ∷ rows) r =
      ground (arith, rows_from-IsRising start (k + 1) rows)

  select-rows_from :
      (rows : Rows)
      → select (in_range lo hi) (rows_from (start_key lo) rows) ≡ select (in_range lo hi) rows
  unfolding rows_from select
  select-rows_from [] = refl
  select-rows_from ((k, e) ∷ rows) = ground (arith, start_skips lo k, select-rows_from rows)

  -- On ordered logs a read does not panic, and returns the entries whose index lies in the range,
  -- in order, whatever the bounds.
  pub try_get_log_entries-select :
      (logs : Logs)
      → IsOrdered logs
      → try_get_log_entries lo hi logs ≡ ok (select (in_range lo hi) logs.rows)
  unfolding try_get_log_entries
  try_get_log_entries-select logs o = elim (start_above lo) [
    | inl a ↦
        take_rows-select (start_key lo) (rows_from (start_key lo) logs.rows) a
          (rows_from-IsRising (start_key lo) 0 logs.rows o)
        ∙ ap ok (select-rows_from logs.rows)
    | inr out ↦
        take_rows-none (start_key lo) (rows_from (start_key lo) logs.rows) out
          (rows_from-IsRising (start_key lo) 0 logs.rows o)
        ∙ ap ok (sym (select_none 0 logs.rows out o))
  ]
