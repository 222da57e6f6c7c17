-- ===== src/Store/Wakes.antt =====
-- What `apply_to_state_machine` of src/store/mod.rs does to the waiters for one digest.
use mathlib.Core.List.{append_assoc, append-nil}
use distribd.Prelude.{
  ℕ, none, some, List, [], ◌∷◌, ◌++◌, ok, if◌then◌else◌, ◌==◌, ◌&&◌, Bool, true, false, nat_eq, ◌≡◌,
  subst, ◌∙◌, arith, ==_eq, inl, inr, Outcome-cases, Option-cases, Bool-cases, In, In-append_left,
  In-append_right,
}
use distribd.Prelude.Map
use distribd.Prelude.Map.{Map, lookup-remove, lookup-insert}
use distribd.Types.{digest_eq, Digest}
use distribd.Store.{send_all, wake, wake_if}

module _ (is_open : ℕ → Bool) where
  send_all-append :
      (channels woken woken' : List ℕ)
      → send_all is_open channels woken ≡ ok woken'
      → woken' ≡ woken ++ channels
  unfolding send_all
  send_all-append [] woken woken' h = ground (arith, append-nil woken)
  send_all-append (c ∷ channels) woken woken' h = elim (Bool-cases (is_open c)) [
    | inr closed ↦ absurd (ground arith)
    | inl listens ↦
        send_all-append channels (woken ++ (c ∷ [])) woken' (ground arith)
        ∙ append_assoc woken (c ∷ []) channels
  ]

  -- what one action does to the waiters of one side
  pub record Wakes (here : Bool) (d : Digest) (waiters waiters' : Map Digest (List ℕ))
      (woken woken' : List ℕ) : Type 0 where
    pub others :
        (d' : Digest)
        → Map.lookup d' waiters' ≡ (if here && (d == d') then none else Map.lookup d' waiters)
    pub kept : (c : ℕ) → In c woken → In c woken'
    pub sent :
        here ≡ true
        → (channels : List ℕ) → Map.lookup d waiters ≡ some channels
        → (c : ℕ) → In c channels
        → In c woken'

  wake-Wakes :
      (d : Digest) (waiters waiters' : Map Digest (List ℕ)) (woken woken' : List ℕ)
      → wake is_open d waiters woken ≡ ok (waiters', woken')
      → Wakes true d waiters waiters' woken woken'
  unfolding wake
  wake-Wakes d waiters waiters' woken woken' h = elim (Option-cases (Map.lookup d waiters)) [
    | inl p ↦ record {
      others = λ d'. ground (arith, p, ==_eq d d');
      kept = λ c m. subst (In c) {x = woken} (ground arith) m;
      sent = λ t channels q c m. absurd (ground arith);
    }
    | inr (channels, p) ↦ elim (Outcome-cases (send_all is_open channels woken)) [
      | inl q ↦ absurd (ground arith)
      | inr (w, q) ↦
          let e = send_all-append channels woken w q in
          record {
            others = λ d'. ground (arith, lookup-remove d d' waiters);
            kept = λ c m.
                subst (In c) {x = woken ++ channels} (ground (arith, e))
                  (In-append_left channels m);
            sent = λ t cs r c m.
                subst (In c) {x = woken ++ channels} (ground (arith, e))
                  (In-append_right woken (subst (In c) {x = cs} (ground arith) m));
          }
    ]
  ]

  pub wake_if-Wakes :
      (here : Bool) (d : Digest) (waiters waiters' : Map Digest (List ℕ)) (woken woken' : List ℕ)
      → wake_if is_open here d waiters woken ≡ ok (waiters', woken')
      → Wakes here d waiters waiters' woken woken'
  wake_if-Wakes true d waiters waiters' woken woken' h =
      wake-Wakes d waiters waiters' woken woken' h
  wake_if-Wakes false d waiters waiters' woken woken' h = record {
    others = λ d'. ground (arith, h);
    kept = λ c m. subst (In c) {x = woken} (ground (arith, h)) m;
    sent = λ t. absurd (ground arith);
  }
