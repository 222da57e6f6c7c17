-- ===== src/StateMachine/Batches.antt =====
-- The loop over the entries of `apply_to_state_machine`: its bookkeeping, and its effect on each
-- digest.
use distribd.Prelude.{
  Option, some, List, [], ◌∷◌, ◌++◌, ok, ◌>>=◌, ◌≡◌, refl, ap, arith, inl, inr, Outcome-cases, map,
  ◌∙◌,
}
use distribd.Prelude.Map
use distribd.Types.{digest_eq, Digest, TagKey, Artifact, RegistryAction, empty, hash_tagged}
use distribd.Raft.{
  LogId, RegistryResponse, EntryPayload, blank, normal, transaction, membership, Entry, actions_of,
}
use distribd.StateMachine.{
  Db, apply_action, apply_actions, apply_payload, apply_entry, apply_entries,
}
use distribd.StateMachine.Artifacts.{Change, change_at, blob_change, manifest_change}
use distribd.StateMachine.Refinement.{evolve, retag, Agrees, apply_actions-Agrees}

-- the actions of a log, in order
abbrev pub log_actions : List Entry → List RegistryAction
log_actions [] = []
log_actions (entry ∷ entries) = actions_of entry.payload ++ log_actions entries

pub evolve-append :
    (f : RegistryAction → Option (Digest × Change)) (d : Digest) (xs ys : List RegistryAction)
    (o : Option Artifact)
    → evolve f d (xs ++ ys) o ≡ (evolve f d xs o >>= evolve f d ys)
evolve-append f d [] ys o = refl
evolve-append f d (x ∷ xs) ys o = elim (Outcome-cases (change_at d (f x) o)) [
  | inl e ↦ rw e
  | inr (o', e) ↦ rw e (evolve-append f d xs ys o')
]

pub retag-append :
    (k : TagKey) (xs ys : List RegistryAction) (o : Option Digest)
    → retag k (xs ++ ys) o ≡ retag k ys (retag k xs o)
retag-append k [] ys o = refl
retag-append k (hash_tagged t d r n u ∷ xs) ys o = retag-append k xs ys _
retag-append k (_ ∷ xs) ys o = retag-append k xs ys o

Agrees-append :
    {xs ys : List RegistryAction} {a b c : Db}
    → Agrees xs a b
    → Agrees ys b c
    → Agrees (xs ++ ys) a c
Agrees-append {xs} {ys} {a} {b} {c} p q = record {
  at_blob =
      λ d. rw (evolve-append blob_change d xs ys (Map.lookup d a.blobs), p.at_blob d) (q.at_blob d);
  at_manifest = λ d.
      rw (evolve-append manifest_change d xs ys (Map.lookup d a.manifests), p.at_manifest d)
        (q.at_manifest d);
  at_tag = λ k. cc (q.at_tag k, p.at_tag k, retag-append k xs ys (Map.lookup k a.tags));
}

apply_payload-Agrees :
    (l : LogId) (p : EntryPayload) (db : Db) {db' : Db}
    → apply_payload l p db ≡ ok db'
    → Agrees (actions_of p) db db'
unfolding apply_payload
apply_payload-Agrees l blank db h = record {
  at_blob = λ d. ground arith;
  at_manifest = λ d. ground arith;
  at_tag = λ k. ground arith;
}
apply_payload-Agrees l (membership nodes) db h = record {
  at_blob = λ d. ground arith;
  at_manifest = λ d. ground arith;
  at_tag = λ k. ground arith;
}
apply_payload-Agrees l (normal (transaction actions)) db {db'} h =
    apply_actions-Agrees actions db {db' = db'} h

-- The answers are the indexes of the entries; the last applied log id is the last entry's.
abbrev pub responses_to : List Entry → List RegistryResponse
responses_to = map (λ e. record { value = e.log_id.index })

abbrev pub last_log_id : List Entry → Option LogId → Option LogId
last_log_id [] o = o
last_log_id (entry ∷ entries) o = last_log_id entries (some entry.log_id)

pub record Applied (entries : List Entry) (db db' : Db) (responses : List RegistryResponse)
    : Type 0 where
  pub agrees : Agrees (log_actions entries) db db'
  pub answered : responses ≡ responses_to entries
  pub last_applied : db'.last_applied_log ≡ last_log_id entries db.last_applied_log

-- Actions change neither the last applied log id nor the membership.
abbrev pub KeepsLog : Db → Db → Type 0
KeepsLog db db' =
    (db'.last_applied_log ≡ db.last_applied_log) × (db'.last_membership ≡ db.last_membership)

apply_action-KeepsLog :
    (a : RegistryAction) (db : Db) {db' : Db} → apply_action a db ≡ ok db' → KeepsLog db db'
unfolding apply_action
apply_action-KeepsLog empty db h = (ground arith, ground arith)
apply_action-KeepsLog _ db h = (ground arith, ground arith)

pub apply_actions-KeepsLog :
    (acts : List RegistryAction) (db : Db) {db' : Db}
    → apply_actions acts db ≡ ok db'
    → KeepsLog db db'
unfolding apply_actions
apply_actions-KeepsLog [] db h = (ground arith, ground arith)
apply_actions-KeepsLog (a ∷ acts) db {db'} h = elim (Outcome-cases (apply_action a db)) [
  | inl e ↦ absurd (ground arith)
  | inr (db₁, e) ↦
      let rest = apply_actions-KeepsLog acts db₁ {db' = db'} (ground arith) in
      let first = apply_action-KeepsLog a db e in (rest.0 ∙ first.0, rest.1 ∙ first.1)
]

apply_payload-last_applied :
    (l : LogId) (p : EntryPayload) (db : Db) {db' : Db}
    → apply_payload l p db ≡ ok db'
    → db'.last_applied_log ≡ db.last_applied_log
unfolding apply_payload
apply_payload-last_applied l blank db h = ground arith
apply_payload-last_applied l (membership nodes) db h = ground arith
apply_payload-last_applied l (normal (transaction actions)) db {db'} h =
    (apply_actions-KeepsLog actions db {db' = db'} h).0

-- the database that an entry's payload is applied to
abbrev pub opened : Entry → Db → Db
opened entry db = record db { last_applied_log = some entry.log_id }

-- what a batch that went through did first, and then
pub record Split (entry : Entry) (entries : List Entry) (db db' : Db)
    (responses : List RegistryResponse) : Type 0 where
  pub middle : Db
  pub later : List RegistryResponse
  pub first : apply_payload entry.log_id entry.payload (opened entry db) ≡ ok middle
  pub rest : apply_entries entries middle ≡ ok (db', later)
  pub answers : responses ≡ record { value = entry.log_id.index } ∷ later

pub apply_entries-Split :
    (entry : Entry) (entries : List Entry) (db : Db) {db' : Db} {responses : List RegistryResponse}
    → apply_entries (entry ∷ entries) db ≡ ok (db', responses)
    → Split entry entries db db' responses
unfolding apply_entries apply_entry
apply_entries-Split entry entries db h =
    elim (Outcome-cases (apply_payload entry.log_id entry.payload (opened entry db))) [
      | inl e ↦ absurd (ground arith)
      | inr (db₁, e) ↦ elim (Outcome-cases (apply_entries entries db₁)) [
        | inl p ↦ absurd (ground arith)
        | inr (r, p) ↦ record {
          middle = db₁;
          later = r.1;
          first = e;
          rest = ground arith;
          answers = ground arith;
        }
      ]
    ]

-- A batch that goes through acts on each digest and tag by the actions of all its entries in
-- order, answers each entry with its index, and records the last entry's log id.
pub apply_entries-Applied :
    (entries : List Entry) (db : Db) {db' : Db} {responses : List RegistryResponse}
    → apply_entries entries db ≡ ok (db', responses)
    → Applied entries db db' responses
apply_entries-Applied [] db h =
    unfold apply_entries in
    record {
      agrees = record {
        at_blob = λ d. ground arith;
        at_manifest = λ d. ground arith;
        at_tag = λ k. ground arith;
      };
      answered = ground arith;
      last_applied = ground arith;
    }
apply_entries-Applied (entry ∷ entries) db {db'} h =
    let s = apply_entries-Split entry entries db h in
    let rest = apply_entries-Applied entries s.middle {db' = db'} {responses = s.later} s.rest in
    let first =
      apply_payload-Agrees entry.log_id entry.payload (opened entry db) {db' = s.middle} s.first in
    record {
      agrees =
          Agrees-append {a = db} {b = s.middle} {c = db'}
            (record {
              at_blob = first.at_blob;
              at_manifest = first.at_manifest;
              at_tag = first.at_tag;
            })
            rest.agrees;
      answered = s.answers ∙ ap (◌∷◌ (record { value = entry.log_id.index })) rest.answered;
      last_applied =
          rest.last_applied
          ∙ ap (last_log_id entries)
              (apply_payload-last_applied entry.log_id entry.payload (opened entry db) s.first);
    }
