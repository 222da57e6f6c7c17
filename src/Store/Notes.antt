-- ===== src/Store/Notes.antt =====
-- What the second loop of `apply_to_state_machine` does to the waiters for one digest, action by
-- action.
use distribd.Prelude.{
  ℕ, Option, none, some, List, [], ◌∷◌, ◌++◌, ok, if◌then◌else◌, ◌==◌, ◌&&◌, ◌||◌, Bool, true,
  false, nat_eq, ◌≡◌, refl, sym, ap, subst, ◌∙◌, arith, ==_eq, inl, inr, Outcome-cases, Bool-cases,
  In,
}
use distribd.Prelude.Map
use distribd.Prelude.Map.{Map, lookup-remove, lookup-insert}
use distribd.Types.{digest_eq, Digest, RegistryAction, empty, blob_stored, manifest_stored}
use distribd.StateMachine.{Db}
use distribd.StateMachine.Artifacts.{Change, stores, blob_change, manifest_change}
use distribd.Store.{Watch, wake_if, note_action}
use distribd.Store.Wakes.{Wakes, wake_if-Wakes}

-- the action stores the digest on the node
abbrev pub stores_on :
    (RegistryAction → Option (Digest × Change)) → ℕ → Digest → RegistryAction → Bool
stores_on f id d a = elim (f a) [
  | none ↦ false
  | some (d', stores t l) ↦ (l == id) && (d' == d)
  | some (d', _) ↦ false
]

-- some action stores the digest on the node
abbrev pub stored_on :
    (RegistryAction → Option (Digest × Change)) → ℕ → Digest → List RegistryAction → Bool
stored_on f id d [] = false
stored_on f id d (a ∷ acts) = stores_on f id d a || stored_on f id d acts

pub stored_on-append :
    (f : RegistryAction → Option (Digest × Change)) (id : ℕ) (d : Digest)
    (xs ys : List RegistryAction)
    → stored_on f id d (xs ++ ys) ≡ (stored_on f id d xs || stored_on f id d ys)
stored_on-append f id d [] ys = refl
stored_on-append f id d (x ∷ xs) ys = ground (arith, stored_on-append f id d xs ys)

module _ (is_open : ℕ → Bool) where
  module _ (id : ℕ) (db : Db) where
    -- what one action does to the waiters for one digest
    pub record Notes (here : Bool) (d : Digest) (before after : Map Digest (List ℕ)) (w w' : Watch)
        : Type 0 where
      pub found : Map.lookup d after ≡ (if here then none else Map.lookup d before)
      pub kept : (c : ℕ) → In c w.woken → In c w'.woken
      pub sent :
          here ≡ true
          → (channels : List ℕ) → Map.lookup d before ≡ some channels
          → (c : ℕ) → In c channels
          → In c w'.woken

    pub still :
        (d : Digest) (before after : Map Digest (List ℕ)) (w w' : Watch)
        → after ≡ before
        → w'.woken ≡ w.woken
        → Notes false d before after w w'
    still d before after w w' p q = record {
      found = ap (λ m. Map.lookup d m) p;
      kept = λ c m. subst (In c) (sym q) m;
      sent = λ t. absurd (ground arith);
    }

    here :
        (on : Bool) (d' d : Digest) (before waiters after : Map Digest (List ℕ)) (w w' : Watch)
        (woken : List ℕ)
        → Wakes is_open on d' before waiters w.woken woken
        → after ≡ waiters
        → w'.woken ≡ woken
        → Notes (on && (d' == d)) d before after w w'
    here on d' d before waiters after w w' woken k p q = record {
      found = ap (Map.lookup d) p ∙ k.others d;
      kept = λ c m. subst (In c) (sym q) (k.kept c m);
      sent = λ t channels r c m. elim (Bool-cases on) [
        | inr off ↦ absurd (ground (arith, t, off))
        | inl true_here ↦
            subst (In c) (sym q)
              (k.sent true_here channels (ground (arith, t, true_here, ==_eq d' d, r)) c m)
      ];
    }

    -- the waiters of the other side were sent to
    aside :
        (on : Bool) (d' d : Digest) (before after others waiters : Map Digest (List ℕ))
        (w w' : Watch) (woken : List ℕ)
        → Wakes is_open on d' others waiters w.woken woken
        → after ≡ before
        → w'.woken ≡ woken
        → Notes false d before after w w'
    aside on d' d before after others waiters w w' woken k p q = record {
      found = ap (Map.lookup d) p;
      kept = λ c m. subst (In c) (sym q) (k.kept c m);
      sent = λ t. absurd (ground arith);
    }

    pub note_blob :
        (a : RegistryAction) (w w' : Watch)
        → note_action is_open id db a w ≡ ok w'
        → (d : Digest) → Notes (stores_on blob_change id d a) d w.blob_waiters w'.blob_waiters w w'
    unfolding note_action
    note_blob (blob_stored t d' l u) w w' h d =
        elim (Outcome-cases (wake_if is_open (l == id) d' w.blob_waiters w.woken)) [
          | inl e ↦ absurd (ground arith)
          | inr ((waiters, woken), e) ↦
              here (l == id) d' d w.blob_waiters waiters w'.blob_waiters w w' woken
                (wake_if-Wakes is_open (l == id) d' w.blob_waiters waiters w.woken woken e)
                (ground arith) (ground arith)
        ]
    note_blob (manifest_stored t d' l u) w w' h d =
        elim (Outcome-cases (wake_if is_open (l == id) d' w.manifest_waiters w.woken)) [
          | inl e ↦ absurd (ground arith)
          | inr ((waiters, woken), e) ↦
              aside (l == id) d' d w.blob_waiters w'.blob_waiters w.manifest_waiters waiters w w'
                woken
                (wake_if-Wakes is_open (l == id) d' w.manifest_waiters waiters w.woken woken e)
                (ground arith) (ground arith)
        ]
    note_blob empty w w' h d = still d _ _ w w' (ground arith) (ground arith)
    note_blob _ w w' h d = still d _ _ w w' (ground arith) (ground arith)

    pub note_manifest :
        (a : RegistryAction) (w w' : Watch)
        → note_action is_open id db a w ≡ ok w'
        → (d : Digest)
        → Notes (stores_on manifest_change id d a) d w.manifest_waiters w'.manifest_waiters w w'
    unfolding note_action
    note_manifest (manifest_stored t d' l u) w w' h d =
        elim (Outcome-cases (wake_if is_open (l == id) d' w.manifest_waiters w.woken)) [
          | inl e ↦ absurd (ground arith)
          | inr ((waiters, woken), e) ↦
              here (l == id) d' d w.manifest_waiters waiters w'.manifest_waiters w w' woken
                (wake_if-Wakes is_open (l == id) d' w.manifest_waiters waiters w.woken woken e)
                (ground arith) (ground arith)
        ]
    note_manifest (blob_stored t d' l u) w w' h d =
        elim (Outcome-cases (wake_if is_open (l == id) d' w.blob_waiters w.woken)) [
          | inl e ↦ absurd (ground arith)
          | inr ((waiters, woken), e) ↦
              aside (l == id) d' d w.manifest_waiters w'.manifest_waiters w.blob_waiters waiters w
                w' woken (wake_if-Wakes is_open (l == id) d' w.blob_waiters waiters w.woken woken e)
                (ground arith) (ground arith)
        ]
    note_manifest empty w w' h d = still d _ _ w w' (ground arith) (ground arith)
    note_manifest _ w w' h d = still d _ _ w w' (ground arith) (ground arith)

    pub both :
        (x y : Bool) (d : Digest) (a b c : Map Digest (List ℕ)) (w w₁ w₂ : Watch)
        → Notes x d a b w w₁
        → Notes y d b c w₁ w₂
        → Notes (x || y) d a c w w₂
    both x y d a b c w w₁ w₂ p q = record {
      found = ground (arith, p.found, q.found);
      kept = λ n m. q.kept n (p.kept n m);
      sent = λ t channels r n m. elim (Bool-cases x) [
        | inl first ↦ q.kept n (p.sent first channels r n m)
        | inr later ↦
            q.sent (ground (arith, t, later)) channels (p.found ∙ ground (arith, later, r)) n m
      ];
    }
