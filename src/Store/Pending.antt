-- ===== src/Store/Pending.antt =====
-- The sets of digests to mirror, after `apply_to_state_machine` and after `new`.
use distribd.Prelude.{
  ℕ, Option, none, some, List, [], ◌∷◌, ok, if◌then◌else◌, ◌==◌, ◌&&◌, Bool, true, false, nat_eq,
  ◌≡◌, ◌∙◌, arith, inl, inr, Outcome-cases, Bool-cases,
}
use distribd.Prelude.Set
use distribd.Prelude.Set.{contains-insert, contains-remove}
use distribd.Prelude.Map
use distribd.Types.{digest_eq, repository_eq, Digest, Artifact, RegistryAction}
use distribd.Raft.{RegistryResponse, Entry}
use distribd.StateMachine.{Tree, Db, apply_entries}
use distribd.StateMachine.Artifacts.{
  Change, stores, mounts, change, change_at, blob_change, manifest_change,
}
use distribd.StateMachine.Refinement.{evolve}
use distribd.StateMachine.Batches.{log_actions, apply_entries-Applied}
use distribd.Store.{RegistryStore, collect_pending, new, note_entries, apply_to_state_machine}
use distribd.Store.Rechecks.{
  needs, recheck, moves, relocated, blob_side, manifest_side, contains-note_entries,
}

still_change :
    (id : ℕ) (c : Change) (o : Option Artifact) {o' : Option Artifact}
    → moves c ≡ false
    → change c o ≡ ok o'
    → needs id o' ≡ needs id o
unfolding change
still_change id (stores t l) o m h = absurd (ground arith)
still_change id (mounts t r) none m h = ground arith
still_change id _ none m h = ground arith
still_change id _ (some a) m h = ground arith

abbrev moves_at : Digest → Option (Digest × Change) → Bool
moves_at d none = false
moves_at d (some (d', c)) = d' == d && moves c

still_at :
    (id : ℕ) (d : Digest) (p : Option (Digest × Change)) (o : Option Artifact)
    {o' : Option Artifact}
    → moves_at d p ≡ false
    → change_at d p o ≡ ok o'
    → needs id o' ≡ needs id o
still_at id d none o m h = ground arith
still_at id d (some (d', c)) o {o'} m h = ground (arith, still_change id c o {o' = o'})

-- An object that no action stores or unstores needs mirroring as before.
still_evolve :
    (id : ℕ) (f : RegistryAction → Option (Digest × Change)) (d : Digest)
    (acts : List RegistryAction) (o o' : Option Artifact)
    → relocated f d acts ≡ false
    → evolve f d acts o ≡ ok o'
    → needs id o' ≡ needs id o
still_evolve id f d [] o o' r h = ground arith
still_evolve id f d (a ∷ acts) o o' r h = elim (Outcome-cases (change_at d (f a) o)) [
  | inl e ↦ absurd (ground arith)
  | inr (o₁, e) ↦
      still_evolve id f d acts o₁ o' (ground arith) (ground arith)
      ∙ still_at id d (f a) o (ground arith) e
]

-- No object that the node should mirror is missing from its two sets.
pub record IsCovered (s : RegistryStore) : Type 0 where
  pub blob :
      (d : Digest)
      → needs s.id (Map.lookup d s.db.blobs) ≡ true
      → Set.contains s.watch.pending_blobs d ≡ true
  pub manifest :
      (d : Digest)
      → needs s.id (Map.lookup d s.db.manifests) ≡ true
      → Set.contains s.watch.pending_manifests d ≡ true

cover :
    (id : ℕ) (f : RegistryAction → Option (Digest × Change)) (d : Digest)
    (acts : List RegistryAction) (o o' : Option Artifact) (old : Bool)
    → evolve f d acts o ≡ ok o'
    → (needs id o ≡ true → old ≡ true)
    → needs id o' ≡ true
    → (if relocated f d acts then recheck id o' old else old) ≡ true
cover id f d acts o o' old h covered n = elim (Bool-cases (relocated f d acts)) [
  | inl moved ↦ rw moved (kept o' n)
  | inr still ↦ rw still (covered (ground (arith, still_evolve id f d acts o o' still h)))
]
  where
    kept : (o'' : Option Artifact) → needs id o'' ≡ true → recheck id o'' old ≡ true
    kept none m = absurd (ground arith)
    kept (some a) m = m

module _ (is_open : ℕ → Bool) (entries : List Entry) (s s' : RegistryStore)
    (responses : List RegistryResponse) where
  -- What a batch that went through did: first all entries, then the second loop.
  pub committed :
      apply_to_state_machine is_open entries s ≡ ok (s', responses)
      → (apply_entries entries s.db ≡ ok (s'.db, responses))
        × (note_entries is_open s.id s'.db entries s.watch ≡ ok s'.watch)
        × (s'.id ≡ s.id)
  unfolding apply_to_state_machine
  committed h = elim (Outcome-cases (apply_entries entries s.db)) [
    | inl e ↦ absurd (ground arith)
    | inr ((db, rs), e) ↦ elim (Outcome-cases (note_entries is_open s.id db entries s.watch)) [
      | inl p ↦ absurd (ground arith)
      | inr (w, p) ↦ ground arith
    ]
  ]

  -- If every object to mirror was in its set, every object to mirror still is after a batch of
  -- entries that goes through.
  pub apply_to_state_machine-IsCovered :
      apply_to_state_machine is_open entries s ≡ ok (s', responses) → IsCovered s → IsCovered s'
  apply_to_state_machine-IsCovered h c =
      let (applied, noted, same) = committed h in
      let agrees =
        (apply_entries-Applied entries s.db {db' = s'.db} {responses = responses} applied).agrees in
      record {
        blob = λ d n.
            contains-note_entries is_open s.id s'.db (blob_side is_open s.id s'.db) entries s.watch
              s'.watch noted d
            ∙ cover s.id blob_change d (log_actions entries) _ _ _ (agrees.at_blob d) (c.blob d)
                (rw same at n);
        manifest = λ d n.
            contains-note_entries is_open s.id s'.db (manifest_side is_open s.id s'.db) entries
              s.watch s'.watch noted d
            ∙ cover s.id manifest_change d (log_actions entries) _ _ _ (agrees.at_manifest d)
                (c.manifest d) (rw same at n);
      }

pub collect :
    (id : ℕ) (tree : Tree) (d : Digest)
    → needs id (Map.lookup d tree) ≡ true
    → Set.contains (collect_pending id tree) d ≡ true
unfolding collect_pending Map.lookup Set.contains
collect id [] d n = n
collect id ((k, a) ∷ tree) d n =
    ground (arith, contains-insert k d (collect_pending id tree), collect id tree d)

-- A store that is opened on a database has every object to mirror in its sets.
pub new-IsCovered : (db : Db) (id : ℕ) → IsCovered (new db id)
unfolding new
new-IsCovered db id = record { blob = collect id db.blobs; manifest = collect id db.manifests }
