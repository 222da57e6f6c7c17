-- ===== src/Store/Waiters.antt =====
-- The requests that wait for a download, through `apply_to_state_machine`.
pub mod Served
use mathlib.Core.List.{append_assoc, append-nil}
use distribd.Prelude.{
  ℕ, Option, none, some, List, [], ◌∷◌, ◌++◌, ok, panic, Outcome, if◌then◌else◌, ◌==◌, ◌&&◌, ◌||◌,
  Bool, true, false, nat_eq, ◌≡◌, refl, sym, ap, subst, ◌∙◌, arith, ◌⊎◌, ==_eq, ==_refl, inl, inr,
  Outcome-cases, Option-cases, Bool-cases, In, head, tail, In-append_left, In-append_right, All,
}
use distribd.Prelude.Set
use distribd.Prelude.Map
use distribd.Prelude.Map.{Map, lookup-remove, lookup-insert}
use distribd.Types.{
  digest_eq, Digest, RegistryAction, empty, blob_stored, blob_unstored, manifest_stored,
  manifest_unstored,
}
use distribd.Raft.{RegistryResponse, Entry, actions_of}
use distribd.StateMachine.{Db}
use distribd.StateMachine.Artifacts.{Change, stores, blob_change, manifest_change}
use distribd.StateMachine.Batches.{log_actions}
use distribd.Store.{
  Watch, RegistryStore, add_waiter, send_all, wake, wake_if, note_action, note_actions,
  note_entries, apply_to_state_machine,
}
use distribd.Store.Pending.{committed}
use distribd.Store.Wakes.{Wakes, wake_if-Wakes}
use distribd.Store.Notes.{
  stores_on, stored_on, stored_on-append, Notes, still, note_blob, note_manifest, both,
}

-- The channel was sent to and forgotten, if `here`, and waits for the digest otherwise.
abbrev pub IsServed : Bool → Digest → ℕ → Map Digest (List ℕ) → List ℕ → Type 0
IsServed true d c waiters woken = In c woken × (Map.lookup d waiters ≡ none)
IsServed false d c waiters woken =
    (channels : List ℕ) × (Map.lookup d waiters ≡ some channels) × In c channels

module _ (is_open : ℕ → Bool) where
  module _ (id : ℕ) (db : Db) where
    -- one kind of object, with the waiters for it
    record Side : Type 0 where
      pub select : RegistryAction → Option (Digest × Change)
      pub waiters : Watch → Map Digest (List ℕ)
      pub note :
          (a : RegistryAction) (w w' : Watch)
          → note_action is_open id db a w ≡ ok w'
          → (d : Digest)
          → Notes is_open id db (stores_on select id d a) d (waiters w) (waiters w') w w'

    abbrev blob_side : Side
    blob_side = record {
      select = blob_change;
      waiters = λ w. w.blob_waiters;
      note = note_blob is_open id db;
    }

    abbrev manifest_side : Side
    manifest_side = record {
      select = manifest_change;
      waiters = λ w. w.manifest_waiters;
      note = note_manifest is_open id db;
    }

    module _ (side : Side) (d : Digest) where
      open side use {select, waiters, note}

      notes :
          (acts : List RegistryAction) (w w' : Watch)
          → note_actions is_open id db acts w ≡ ok w'
          → Notes is_open id db (stored_on select id d acts) d (waiters w) (waiters w') w w'
      unfolding note_actions
      notes [] w w' h = still is_open id db d _ _ w w' (ap waiters (ground arith)) (ground arith)
      notes (a ∷ acts) w w' h = elim (Outcome-cases (note_action is_open id db a w)) [
        | inl e ↦ absurd (ground arith)
        | inr (w₁, e) ↦
            both is_open id db _ _ d (waiters w) (waiters w₁) (waiters w') w w₁ w' (note a w w₁ e d)
              (notes acts w₁ w' (ground arith))
      ]

      notes_all :
          (entries : List Entry) (w w' : Watch)
          → note_entries is_open id db entries w ≡ ok w'
          → Notes is_open id db
              (stored_on select id d (log_actions entries))
              d
              (waiters w)
              (waiters w')
              w
              w'
      unfolding note_entries
      notes_all [] w w' h =
          still is_open id db d _ _ w w' (ap waiters (ground arith)) (ground arith)
      notes_all (x ∷ entries) w w' h =
          elim (Outcome-cases (note_actions is_open id db (actions_of x.payload) w)) [
            | inl e ↦ absurd (ground arith)
            | inr (w₁, e) ↦
                subst (λ b. Notes is_open id db b d (waiters w) (waiters w') w w')
                  (sym (stored_on-append select id d (actions_of x.payload) (log_actions entries)))
                  (both is_open id db _ _ d (waiters w) (waiters w₁) (waiters w') w w₁ w'
                    (notes (actions_of x.payload) w w₁ e) (notes_all entries w₁ w' (ground arith)))
          ]

  added :
      (d : Digest) (c : ℕ) (waiters : Map Digest (List ℕ))
      → (channels : List ℕ) × (Map.lookup d (add_waiter d c waiters) ≡ some channels)
        × In c channels
  unfolding add_waiter
  added d c waiters = elim (Option-cases (Map.lookup d waiters)) [
    | inl p ↦ (c ∷ [], ground (arith, p, ==_refl d, lookup-insert d d (c ∷ []) waiters), head refl)
    | inr (channels, p) ↦ (
      channels ++ (c ∷ []),
      ground (arith, p, ==_refl d, lookup-insert d d (channels ++ (c ∷ [])) waiters),
      In-append_right channels (head refl),
    )
  ]

  served :
      (id : ℕ) (db : Db) (on : Bool) (d : Digest) (c : ℕ) (before after : Map Digest (List ℕ))
      (w w' : Watch)
      → Notes is_open id db on d (add_waiter d c before) after w w'
      → IsServed on d c after w'.woken
  served id db true d c before after w w' k =
      let (channels, p, m) = added d c before in (k.sent refl channels p c m, k.found)
  served id db false d c before after w w' k =
      let (channels, p, m) = added d c before in (channels, k.found ∙ p, m)

  pub all-IsServed :
      (entries : List Entry) (s s' : RegistryStore) (responses : List RegistryResponse) (d : Digest)
      (c : ℕ) (blob_waiters manifest_waiters : Map Digest (List ℕ))
      → apply_to_state_machine is_open entries s ≡ ok (s', responses)
      → (s.watch.blob_waiters ≡ add_waiter d c blob_waiters
          → IsServed
              (stored_on blob_change s.id d (log_actions entries))
              d
              c
              s'.watch.blob_waiters
              s'.watch.woken)
        × (s.watch.manifest_waiters ≡ add_waiter d c manifest_waiters
            → IsServed
                (stored_on manifest_change s.id d (log_actions entries))
                d
                c
                s'.watch.manifest_waiters
                s'.watch.woken)
  all-IsServed entries s s' responses d c blob_waiters manifest_waiters h =
      let (applied, noted, same) = committed is_open entries s s' responses h in
      (
        (λ p.
            served s.id s'.db (stored_on blob_change s.id d (log_actions entries)) d c blob_waiters
              s'.watch.blob_waiters s.watch s'.watch
              (subst
                (λ m.
                  Notes is_open s.id s'.db (stored_on blob_change s.id d (log_actions entries)) d m
                    s'.watch.blob_waiters s.watch s'.watch)
                p (notes_all s.id s'.db (blob_side s.id s'.db) d entries s.watch s'.watch noted))),
        (λ p.
            served s.id s'.db (stored_on manifest_change s.id d (log_actions entries)) d c
              manifest_waiters s'.watch.manifest_waiters s.watch s'.watch
              (subst
                (λ m.
                  Notes is_open s.id s'.db (stored_on manifest_change s.id d (log_actions entries))
                    d m s'.watch.manifest_waiters s.watch s'.watch)
                p
                (notes_all s.id s'.db (manifest_side s.id s'.db) d entries s.watch s'.watch
                  noted))),
      )
