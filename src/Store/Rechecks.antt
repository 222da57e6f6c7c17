-- ===== src/Store/Rechecks.antt =====
-- What the second loop of `apply_to_state_machine` does to the sets of digests to mirror.
use distribd.Prelude.{
  ℕ, Option, none, some, List, [], ◌∷◌, ◌++◌, ok, if◌then◌else◌, ◌==◌, not, ◌&&◌, ◌||◌, Bool, true,
  false, nat_eq, ◌≡◌, ap, arith, inl, inr, Outcome-cases,
}
use distribd.Prelude.Set
use distribd.Prelude.Set.{contains-insert, contains-remove}
use distribd.Prelude.Map
use distribd.Types.{
  digest_eq, repository_eq, Digest, Artifact, RegistryAction, empty, blob_stored, blob_unstored,
  manifest_stored, manifest_unstored,
}
use distribd.Raft.{Entry, actions_of}
use distribd.StateMachine.{Tree, Db}
use distribd.StateMachine.Artifacts.{Change, stores, unstores, blob_change, manifest_change}
use distribd.StateMachine.Batches.{log_actions}
use distribd.Store.{Watch, update_pending, note_action, note_actions, note_entries}

-- Whether another node has the object and this one does not, read off the entry of its tree.
abbrev pub needs : ℕ → Option Artifact → Bool
needs id none = false
needs id (some a) = not (Set.contains a.locations id) && not (Set.is_empty a.locations)

-- Membership in the set to mirror, once the tree's entry is `o` and was looked at again.
abbrev pub recheck : ℕ → Option Artifact → Bool → Bool
recheck id none old = old
recheck id (some a) old = needs id (some a)

abbrev pub moves : Change → Bool
moves (stores t l) = true
moves (unstores t l) = true
moves _ = false

-- Whether an action stores or unstores the digest, and whether some action of a list does.
abbrev pub relocates : (RegistryAction → Option (Digest × Change)) → Digest → RegistryAction → Bool
relocates f d a = elim (f a) [ none ↦ false | some (d', c) ↦ d' == d && moves c ]

abbrev pub relocated :
    (RegistryAction → Option (Digest × Change)) → Digest → List RegistryAction → Bool
relocated f d [] = false
relocated f d (a ∷ acts) = relocates f d a || relocated f d acts

contains-update_pending :
    (id : ℕ) (tree : Tree) (d' : Digest) (pending : List Digest) (d : Digest)
    → Set.contains (update_pending id tree d' pending) d ≡ (
        if d' == d
        then recheck id (Map.lookup d tree) (Set.contains pending d)
        else Set.contains pending d)
unfolding update_pending
contains-update_pending id tree d' pending d =
    ground (arith, contains-insert d' d pending, contains-remove d' d pending)

module _ (is_open : ℕ → Bool) (id : ℕ) (db : Db) where
  pub note_blob :
      (a : RegistryAction) (w : Watch) {w' : Watch}
      → note_action is_open id db a w ≡ ok w'
      → (d : Digest)
      → Set.contains w'.pending_blobs d ≡ (
          if relocates blob_change d a
          then recheck id (Map.lookup d db.blobs) (Set.contains w.pending_blobs d)
          else Set.contains w.pending_blobs d)
  unfolding note_action
  note_blob (blob_stored t d' l u) w h d =
      ground (arith, contains-update_pending id db.blobs d' w.pending_blobs d)
  note_blob (blob_unstored t d' l u) w h d =
      ground (arith, contains-update_pending id db.blobs d' w.pending_blobs d)
  note_blob empty w h d = ground arith
  note_blob _ w h d = ground arith

  pub note_manifest :
      (a : RegistryAction) (w : Watch) {w' : Watch}
      → note_action is_open id db a w ≡ ok w'
      → (d : Digest)
      → Set.contains w'.pending_manifests d ≡ (
          if relocates manifest_change d a
          then recheck id (Map.lookup d db.manifests) (Set.contains w.pending_manifests d)
          else Set.contains w.pending_manifests d)
  unfolding note_action
  note_manifest (manifest_stored t d' l u) w h d =
      ground (arith, contains-update_pending id db.manifests d' w.pending_manifests d)
  note_manifest (manifest_unstored t d' l u) w h d =
      ground (arith, contains-update_pending id db.manifests d' w.pending_manifests d)
  note_manifest empty w h d = ground arith
  note_manifest _ w h d = ground arith

-- One of the two sets, with the tree that it is about, and its law for one action.
pub record Side (is_open : ℕ → Bool) (id : ℕ) (db : Db) : Type 0 where
  pub select : RegistryAction → Option (Digest × Change)
  pub tree : Tree
  pub pending : Watch → List Digest
  pub note :
      (a : RegistryAction) (w w' : Watch)
      → note_action is_open id db a w ≡ ok w'
      → (d : Digest)
      → Set.contains (pending w') d ≡ (
          if relocates select d a
          then recheck id (Map.lookup d tree) (Set.contains (pending w) d)
          else Set.contains (pending w) d)

module _ (is_open : ℕ → Bool) (id : ℕ) (db : Db) where
  abbrev pub blob_side : Side is_open id db
  blob_side = record {
    select = blob_change;
    tree = db.blobs;
    pending = λ w. w.pending_blobs;
    note = λ a w w' h. note_blob is_open id db a w {w' = w'} h;
  }

  abbrev pub manifest_side : Side is_open id db
  manifest_side = record {
    select = manifest_change;
    tree = db.manifests;
    pending = λ w. w.pending_manifests;
    note = λ a w w' h. note_manifest is_open id db a w {w' = w'} h;
  }

  module _ (side : Side is_open id db) where
    open side use {select, tree, pending, note}

    -- membership after the actions, from membership before
    abbrev after_actions : Digest → List RegistryAction → Bool → Bool
    after_actions d acts old =
        if relocated select d acts then recheck id (Map.lookup d tree) old else old

    contains-note_actions :
        (acts : List RegistryAction) (w w' : Watch)
        → note_actions is_open id db acts w ≡ ok w'
        → (d : Digest)
        → Set.contains (pending w') d ≡ after_actions d acts (Set.contains (pending w) d)
    unfolding note_actions
    contains-note_actions [] w w' h d = ap (λ v. Set.contains (pending v) d) (ground arith)
    contains-note_actions (a ∷ acts) w w' h d =
        elim (Outcome-cases (note_action is_open id db a w)) [
          | inl e ↦ absurd (ground arith)
          | inr (w₁, e) ↦
              ground (arith, note a w w₁ e d, contains-note_actions acts w₁ w' (ground arith) d)
        ]

    after_actions-append :
        (d : Digest) (xs ys : List RegistryAction) (old : Bool)
        → after_actions d (xs ++ ys) old ≡ after_actions d ys (after_actions d xs old)
    after_actions-append d [] ys old = ground arith
    after_actions-append d (x ∷ xs) ys old = ground (arith, after_actions-append d xs ys old)

    -- Membership after the second loop: exactly when the entry now calls for it, if an action
    -- stored or unstored the digest and the entry is still there, and otherwise as before.
    pub contains-note_entries :
        (entries : List Entry) (w w' : Watch)
        → note_entries is_open id db entries w ≡ ok w'
        → (d : Digest)
        → Set.contains (pending w') d
          ≡ after_actions d (log_actions entries) (Set.contains (pending w) d)
    unfolding note_entries
    contains-note_entries [] w w' h d = ap (λ v. Set.contains (pending v) d) (ground arith)
    contains-note_entries (x ∷ entries) w w' h d =
        elim (Outcome-cases (note_actions is_open id db (actions_of x.payload) w)) [
          | inl e ↦ absurd (ground arith)
          | inr (w₁, e) ↦
              rw
                (after_actions-append d (actions_of x.payload) (log_actions entries)
                  (Set.contains (pending w) d))
                (ground (
                  arith,
                  contains-note_actions (actions_of x.payload) w w₁ e d,
                  contains-note_entries entries w₁ w' (ground arith) d,
                ))
        ]
