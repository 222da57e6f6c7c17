-- ===== src/Store/Waiters/Served.antt =====
-- Requests whose channels are open do not stop the second loop of `apply_to_state_machine`, and it
-- serves them.
use distribd.Prelude.{
  ℕ, some, List, [], ◌∷◌, ◌++◌, ok, ◌==◌, Bool, true, false, nat_eq, ◌≡◌, refl, arith, inl, inr,
  Option-cases, All,
}
use distribd.Prelude.Map
use distribd.Prelude.Map.{Map, lookup-remove}
use distribd.Types.{
  digest_eq, Digest, RegistryAction, empty, blob_stored, blob_unstored, manifest_stored,
  manifest_unstored,
}
use distribd.Raft.{RegistryResponse, Entry, actions_of}
use distribd.StateMachine.{Db, apply_entries}
use distribd.StateMachine.Artifacts.{blob_change, manifest_change}
use distribd.StateMachine.Batches.{log_actions}
use distribd.Store.{
  Watch, RegistryStore, add_waiter, update_pending, send_all, wake, wake_if, note_action,
  note_actions, note_entries, apply_to_state_machine,
}
use distribd.Store.Waiters.{IsServed, all-IsServed}
use distribd.Store.Notes.{stored_on}

module _ (is_open : ℕ → Bool) where
  -- every waiter still listens
  abbrev pub AreOpen : Map Digest (List ℕ) → Type 0
  AreOpen waiters =
      (d : Digest) (channels : List ℕ)
      → Map.lookup d waiters ≡ some channels
      → All (λ c. is_open c ≡ true) channels

  send_all-open :
      (channels woken : List ℕ)
      → All (λ c. is_open c ≡ true) channels
      → (woken' : List ℕ) × (send_all is_open channels woken ≡ ok woken')
  unfolding send_all
  send_all-open [] woken h = (woken, refl)
  send_all-open (c ∷ channels) woken h =
      let (w, p) = send_all-open channels (woken ++ (c ∷ [])) h.1 in (w, rw (h.0, p) refl)

  wake-open :
      (on : Bool) (d : Digest) (waiters : Map Digest (List ℕ)) (woken : List ℕ)
      → AreOpen waiters
      → (waiters' : Map Digest (List ℕ)) × (woken' : List ℕ) × (wake_if is_open on d waiters woken
          ≡ ok (waiters', woken'))
        × AreOpen waiters'
  unfolding wake
  wake-open false d waiters woken h = (waiters, woken, refl, h)
  wake-open true d waiters woken h = elim (Option-cases (Map.lookup d waiters)) [
    | inl p ↦ (waiters, woken, ground (arith, p), h)
    | inr (channels, p) ↦
        let (w, q) = send_all-open channels woken (h d channels p) in
        (
          Map.remove d waiters,
          w,
          ground (arith, p, q),
          (λ d' cs r. h d' cs (ground (arith, r, lookup-remove d d' waiters))),
        )
  ]

  abbrev WatchIsOpen : Watch → Type 0
  WatchIsOpen w = AreOpen w.blob_waiters × AreOpen w.manifest_waiters

  module _ (id : ℕ) (db : Db) where
    note_action-open :
        (a : RegistryAction) (w : Watch)
        → WatchIsOpen w
        → (w' : Watch) × (note_action is_open id db a w ≡ ok w') × WatchIsOpen w'
    unfolding note_action
    note_action-open (blob_stored t d l u) w h =
        let (waiters, woken, p, o) = wake-open (l == id) d w.blob_waiters w.woken h.0 in
        (
          record w {
            pending_blobs = update_pending id db.blobs d w.pending_blobs;
            blob_waiters = waiters;
            woken = woken;
          },
          rw p refl,
          (o, h.1),
        )
    note_action-open (manifest_stored t d l u) w h =
        let (waiters, woken, p, o) = wake-open (l == id) d w.manifest_waiters w.woken h.1 in
        (
          record w {
            pending_manifests = update_pending id db.manifests d w.pending_manifests;
            manifest_waiters = waiters;
            woken = woken;
          },
          rw p refl,
          (h.0, o),
        )
    note_action-open (blob_unstored t d l u) w h = (_, refl, h)
    note_action-open (manifest_unstored t d l u) w h = (_, refl, h)
    note_action-open empty w h = (w, refl, h)
    note_action-open _ w h = (w, refl, h)

    note_actions-open :
        (acts : List RegistryAction) (w : Watch)
        → WatchIsOpen w
        → (w' : Watch) × (note_actions is_open id db acts w ≡ ok w') × WatchIsOpen w'
    unfolding note_actions
    note_actions-open [] w h = (w, refl, h)
    note_actions-open (a ∷ acts) w h =
        let (w₁, p, h₁) = note_action-open a w h in
        let (w', q, h') = note_actions-open acts w₁ h₁ in (w', rw (p, q) refl, h')

    note_entries-open :
        (entries : List Entry) (w : Watch)
        → WatchIsOpen w
        → (w' : Watch) × (note_entries is_open id db entries w ≡ ok w') × WatchIsOpen w'
    unfolding note_entries
    note_entries-open [] w h = (w, refl, h)
    note_entries-open (x ∷ entries) w h =
        let (w₁, p, h₁) = note_actions-open (actions_of x.payload) w h in
        let (w', q, h') = note_entries-open entries w₁ h₁ in (w', rw (p, q) refl, h')

  -- When all requests that wait still listen, a batch whose transactions go through is applied. A
  -- request that has registered to wait for a blob is then woken and forgotten if the batch stores the
  -- blob on this node, and waits as before if not; the same holds of a manifest.
  pub apply_to_state_machine-IsServed :
      (entries : List Entry) (s : RegistryStore) (db : Db) (responses : List RegistryResponse)
      (d : Digest) (c : ℕ) (blob_waiters manifest_waiters : Map Digest (List ℕ))
      → apply_entries entries s.db ≡ ok (db, responses)
      → AreOpen s.watch.blob_waiters
      → AreOpen s.watch.manifest_waiters
      → (s' : RegistryStore) × (apply_to_state_machine is_open entries s ≡ ok (s', responses))
        × (s'.db ≡ db)
        × (s.watch.blob_waiters ≡ add_waiter d c blob_waiters
            → IsServed
                (stored_on blob_change s.id d (log_actions entries))
                d
                c
                s'.watch.blob_waiters
                s'.watch.woken)
        × (s.watch.manifest_waiters ≡ add_waiter d c manifest_waiters
            → IsServed
                (stored_on manifest_change s.id d (log_actions entries))
                d
                c
                s'.watch.manifest_waiters
                s'.watch.woken)
  unfolding apply_to_state_machine
  apply_to_state_machine-IsServed entries s db responses d c blob_waiters manifest_waiters h blobs
        manifests =
      let (w, p, o) = note_entries-open s.id db entries s.watch (blobs, manifests) in
      let went : apply_to_state_machine is_open entries s
          ≡ ok (record s { db = db; watch = w }, responses) =
        rw (h, p) refl in
      let (blob, manifest) =
        all-IsServed is_open entries s (record s { db = db; watch = w }) responses d c blob_waiters
          manifest_waiters went in
      (record s { db = db; watch = w }, went, refl, blob, manifest)
