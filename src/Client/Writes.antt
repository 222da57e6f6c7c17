-- ===== src/Client/Writes.antt =====
-- What the answer of `consistent_write` is worth: the write is applied on this node.
use mathlib.Core.List.{append_assoc}
use distribd.Prelude.{
  ℕ, ◌≤◌, ◌<◌, ◌+◌, ap, Option, none, some, List, [], ◌∷◌, ◌++◌, ok, true, false, leb, ◌≡◌, refl,
  arith, ◌↔◌, sym, subst, ◌∙◌, inl, inr, In, head, tail, Bool-cases, Option-cases,
}
use distribd.Raft.{LogId, Entry, RegistryResponse, normal, transaction, actions_of}
use distribd.Types.{RegistryAction}
use distribd.StateMachine.{Db, fresh, apply_entries}
use distribd.StateMachine.Refinement.{Agrees}
use distribd.StateMachine.Batches.{last_log_id, log_actions, apply_entries-Applied}
use distribd.Client.{
  Exchange, Leader, Write, write, wait_for, submit_write, consistent_write, done, failed,
}

-- one of the values reaches the index
abbrev pub Reaches : ℕ → List (Option ℕ) → Type 0
Reaches target applied = (index : ℕ) × In (some index) applied × (target ≤ index)

module _ {E : Type 0} (respond : ℕ → Leader → Exchange ℕ E) where
  submit_write-fails :
      (local : Write E) → write local respond ≡ none → submit_write local respond ≡ false
  unfolding submit_write
  submit_write-fails (done index) h = absurd (ground (arith, h))
  submit_write-fails (failed error) h = rw (h, submit_write) refl

  submit_write-succeeds :
      (local : Write E) (target : ℕ)
      → write local respond ≡ some target
      → submit_write local respond ≡ false
      → ⊥
  unfolding submit_write
  submit_write-succeeds (done index) target h p = ground (arith, p)
  submit_write-succeeds (failed error) target h p = ground (arith, h, p)

module _ {E : Type 0} (local : Write E) (respond : ℕ → Leader → Exchange ℕ E) where
  wait_for-Reaches :
      (target : ℕ) (applied : List (Option ℕ))
      → wait_for local respond target applied ≡ ok true
      → Reaches target applied
  unfolding wait_for
  wait_for-Reaches target [] h = absurd (ground arith)
  wait_for-Reaches target (none ∷ applied) h =
      let (index, seen, enough) = wait_for-Reaches target applied h in (index, tail seen, enough)
  wait_for-Reaches target (some index ∷ applied) h = elim (Bool-cases (leb target index)) [
    | inl enough ↦ (index, head refl, ground arith)
    | inr short ↦
        let (index', seen, enough) = wait_for-Reaches target applied (ground arith) in
        (index', tail seen, enough)
  ]

  wait_for-ends :
      (target : ℕ) (applied : List (Option ℕ)) (index : ℕ)
      → In (some index) applied
      → target ≤ index
      → wait_for local respond target applied ≡ ok true
  unfolding wait_for
  wait_for-ends target [] index seen enough = elim seen [ ]
  wait_for-ends target (none ∷ applied) index (head e) enough = absurd (ground arith)
  wait_for-ends target (some i ∷ applied) index (head e) enough = ground arith
  wait_for-ends target (none ∷ applied) index (tail seen) enough =
      wait_for-ends target applied index seen enough
  wait_for-ends target (some i ∷ applied) index (tail seen) enough =
      ground (arith, wait_for-ends target applied index seen enough)

  wait_for-never_false :
      (target : ℕ) (applied : List (Option ℕ))
      → wait_for local respond target applied ≡ ok false
      → ⊥
  unfolding wait_for
  wait_for-never_false target [] h = ground arith
  wait_for-never_false target (none ∷ applied) h = wait_for-never_false target applied h
  wait_for-never_false target (some i ∷ applied) h = elim (Bool-cases (leb target i)) [
    | inl enough ↦ ground arith
    | inr short ↦ wait_for-never_false target applied (ground arith)
  ]

  -- The answer is `true` just if the write went through and the node is seen to have applied its
  -- entry, and `false` just if the write failed; `submit_write` tells the same without the wait.
  pub consistent_write-Reaches :
      (applied : List (Option ℕ))
      → ((consistent_write local respond applied ≡ ok true)
          ↔ ((target : ℕ) × (write local respond ≡ some target) × Reaches target applied))
        × ((consistent_write local respond applied ≡ ok false) ↔ (write local respond ≡ none))
        × ((submit_write local respond ≡ false) ↔ (write local respond ≡ none))
  unfolding consistent_write submit_write
  consistent_write-Reaches applied = elim (Option-cases (write local respond)) [
    | inl e ↦ (
      ((λ h. absurd (ground (arith, e, h))), (λ (t, p, r). absurd (ground (arith, e, p)))),
      ((λ h. e), (λ h. rw (e, consistent_write) refl)),
      ((λ h. e), (λ h. submit_write-fails respond local e)),
    )
    | inr (target, e) ↦ (
      (
        (λ h. (target, e, wait_for-Reaches target applied (ground (arith, e, h)))),
        (λ (t, p, (index, seen, enough)).
            rw (e, consistent_write)
              (wait_for-ends target applied index seen (ground (arith, e, p, enough)))),
      ),
      (
        (λ h. absurd (wait_for-never_false target applied (ground (arith, e, h)))),
        (λ h. absurd (ground (arith, e, h))),
      ),
      (
        (λ h. absurd (submit_write-succeeds respond local target e h)),
        (λ h. absurd (ground (arith, e, h))),
      ),
    )
  ]

-- openraft's log: the indexes rise
abbrev pub IsLog : ℕ → List Entry → Type 0
IsLog low [] = Unit {0}
IsLog low (entry ∷ entries) = (low ≤ entry.log_id.index) × IsLog (entry.log_id.index + 1) entries

In-low :
    (low : ℕ) (entries : List Entry) (entry : Entry)
    → IsLog low entries
    → In entry entries
    → low ≤ entry.log_id.index
In-low low (e ∷ entries) entry log (head same) = ground (arith, log.0, same)
In-low low (e ∷ entries) entry log (tail later) =
    omega (arith, log.0, In-low (e.log_id.index + 1) entries entry log.1 later)
In-low low [] entry log m = elim m [ ]

-- An entry of the log up to the last applied one is among the applied ones.
applied_up_to :
    (low : ℕ) (o : Option LogId) (entries rest : List Entry) (entry : Entry) (l : LogId)
    → IsLog low (entries ++ rest)
    → ((last : LogId) → o ≡ some last → last.index < low)
    → In entry (entries ++ rest)
    → last_log_id entries o ≡ some l
    → entry.log_id.index ≤ l.index
    → (before after : List Entry) × (entries ≡ before ++ (entry ∷ after))
applied_up_to low o [] rest entry l log below m last reached =
    absurd (omega (arith, below l last, In-low low rest entry log m))
applied_up_to low o (e ∷ entries) rest entry l log below (head same) last reached =
    ([], entries, ap (λ x. x ∷ entries) same)
applied_up_to low o (e ∷ entries) rest entry l log below (tail later) last reached =
    let (before, after, p) =
      applied_up_to (e.log_id.index + 1) (some e.log_id) entries rest entry l log.1
        (λ x q. ground arith) later last reached in
    (e ∷ before, after, ap (λ xs. e ∷ xs) p)

log_actions-append :
    (xs ys : List Entry) → log_actions (xs ++ ys) ≡ log_actions xs ++ log_actions ys
log_actions-append [] ys = refl
log_actions-append (x ∷ xs) ys =
    ap (λ l. actions_of x.payload ++ l) (log_actions-append xs ys)
    ∙ sym (append_assoc (actions_of x.payload) (log_actions xs) (log_actions ys))

-- what a database is, that the entries of a log were applied to
abbrev pub HasApplied : List Entry → Db → Type 0
HasApplied entries db =
    (responses : List RegistryResponse) × (apply_entries entries fresh ≡ ok (db, responses))

module _ {E : Type 0} (local : Write E) (respond : ℕ → Leader → Exchange ℕ E) where
  -- Let `state index` be the node's database when it shows that index as its last applied one, the
  -- outcome of a prefix of one log that ends there, and let the log hold the actions at the index that
  -- openraft gave the write. When `consistent_write` answers `true`, the node has shown an index at
  -- which its database is what some actions, then those of the write, then some others, make of each
  -- blob, manifest and tag.
  pub consistent_write-Agrees :
      (actions : List RegistryAction) (log : List Entry) (applied : List (Option ℕ))
      (state : ℕ → Db)
      → IsLog 0 log
      → ((target : ℕ)
          → write local respond ≡ some target
          → (l : LogId) × (l.index ≡ target)
            × In (record { log_id = l; payload = normal (transaction actions) }) log)
      → ((index : ℕ)
          → In (some index) applied
          → (l : LogId) × (l.index ≡ index)
            × (entries : List Entry) × (rest : List Entry) × (entries ++ rest ≡ log)
            × (last_log_id entries none ≡ some l)
            × HasApplied entries (state index))
      → consistent_write local respond applied ≡ ok true
      → (index : ℕ) × In (some index) applied
        × (before : List RegistryAction) × (after : List RegistryAction) × Agrees
            (before ++ (actions ++ after))
            fresh
            (state index)
  consistent_write-Agrees actions log applied state rising logged shown h =
      let (target, e, (index, seen, enough)) =
        (consistent_write-Reaches local respond applied).0.0 h in
      let (w, at_target, m) = logged target e in
      let (l, at_index, entries, rest, whole, last, (responses, went)) = shown index seen in
      let (before, after, p) =
        applied_up_to 0 none entries rest
          (record { log_id = w; payload = normal (transaction actions) }) l
          (subst (IsLog 0) (sym whole) rising) (λ x q. ground arith) (subst (In _) (sym whole) m)
          last (omega (arith, at_target, at_index, enough)) in
      (
        index,
        seen,
        log_actions before,
        log_actions after,
        subst (λ acts. Agrees acts fresh (state index))
            (ap log_actions p ∙ log_actions-append before (_ ∷ after))
            ((apply_entries-Applied entries fresh went).agrees),
      )
