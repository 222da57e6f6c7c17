-- ===== src/StateMachine/Refinement.antt =====
-- A transaction seen from one digest or one tag: the trees of src/store/mod.rs behave as
-- independent automata, one for each blob, each manifest and each tag.
use distribd.Prelude.{
  Option, some, List, [], ◌∷◌, Outcome, ok, panic, ◌>>=◌, if◌then◌else◌, ◌≡◌, refl, ◌==◌, arith,
  ◌⊎◌, inl, inr, Outcome-cases,
}
use distribd.Prelude.Map
use distribd.Prelude.Map.{lookup-insert}
use distribd.Types.{
  digest_eq, tag_key_eq, Digest, TagKey, Artifact, RegistryAction, empty, blob_stored,
  blob_unstored, blob_mounted, blob_unmounted, blob_info, blob_stat, manifest_stored,
  manifest_unstored, manifest_mounted, manifest_unmounted, manifest_info, manifest_stat,
  hash_tagged,
}
use distribd.StateMachine.{Db, stored, apply_action, apply_actions}
use distribd.StateMachine.Artifacts.{
  Change, change, change_at, blob_change, manifest_change, lookup-stored, lookup-unstored,
  lookup-mounted, lookup-unmounted, lookup-info, lookup-stat,
}

-- The actions of a transaction, seen from one digest.
abbrev pub evolve :
    (RegistryAction → Option (Digest × Change))
    → Digest
    → List RegistryAction
    → Option Artifact
    → Outcome (Option Artifact)
evolve f d [] o = ok o
evolve f d (a ∷ acts) o = change_at d (f a) o >>= evolve f d acts

-- The tag's last digest in the transaction, or else the one that it had.
abbrev pub retag : TagKey → List RegistryAction → Option Digest → Option Digest
retag k [] o = o
retag k (hash_tagged t d r n u ∷ acts) o =
    retag k acts (if record { repository = r; tag = n } == k then some d else o)
retag k (_ ∷ acts) o = retag k acts o

pub record Agrees (acts : List RegistryAction) (db db' : Db) : Type 0 where
  pub at_blob :
      (d : Digest) → evolve blob_change d acts (Map.lookup d db.blobs) ≡ ok (Map.lookup d db'.blobs)
  pub at_manifest :
      (d : Digest)
      → evolve manifest_change d acts (Map.lookup d db.manifests) ≡ ok (Map.lookup d db'.manifests)
  pub at_tag : (k : TagKey) → Map.lookup k db'.tags ≡ retag k acts (Map.lookup k db.tags)

blob_step :
    (a : RegistryAction) (db : Db) {db' : Db}
    → apply_action a db ≡ ok db'
    → (d : Digest)
    → change_at d (blob_change a) (Map.lookup d db.blobs) ≡ ok (Map.lookup d db'.blobs)
unfolding apply_action
blob_step empty db h d = ground arith
blob_step (blob_stored t d' l u) db h d = grind (arith, lookup-stored t d' db.blobs d l)
blob_step (blob_unstored t d' l u) db h d = ground (arith, lookup-unstored t d' db.blobs d l)
blob_step (blob_mounted t d' r u) db h d = ground (arith, lookup-mounted t d' db.blobs d r)
blob_step (blob_unmounted t d' r u) db h d = ground (arith, lookup-unmounted t d' db.blobs d r)
blob_step (blob_info t d' ds c) db h d = ground (arith, lookup-info t d' db.blobs d ds c)
blob_step (blob_stat t d' n) db h d = ground (arith, lookup-stat t d' db.blobs d n)
blob_step _ db h d = ground arith

manifest_step :
    (a : RegistryAction) (db : Db) {db' : Db}
    → apply_action a db ≡ ok db'
    → (d : Digest)
    → change_at d (manifest_change a) (Map.lookup d db.manifests) ≡ ok (Map.lookup d db'.manifests)
unfolding apply_action
manifest_step empty db h d = ground arith
manifest_step (manifest_stored t d' l u) db h d = grind (arith, lookup-stored t d' db.manifests d l)
manifest_step (manifest_unstored t d' l u) db h d =
    ground (arith, lookup-unstored t d' db.manifests d l)
manifest_step (manifest_mounted t d' r u) db h d =
    ground (arith, lookup-mounted t d' db.manifests d r)
manifest_step (manifest_unmounted t d' r u) db h d =
    ground (arith, lookup-unmounted t d' db.manifests d r)
manifest_step (manifest_info t d' ds c) db h d =
    ground (arith, lookup-info t d' db.manifests d ds c)
manifest_step (manifest_stat t d' n) db h d = ground (arith, lookup-stat t d' db.manifests d n)
manifest_step _ db h d = ground arith

tag_step :
    (a : RegistryAction) (db : Db) {db' : Db}
    → apply_action a db ≡ ok db'
    → (k : TagKey) → Map.lookup k db'.tags ≡ retag k (a ∷ []) (Map.lookup k db.tags)
unfolding apply_action
tag_step empty db h k = ground arith
tag_step (hash_tagged t d r n u) db h k =
    ground (arith, lookup-insert (record { repository = r; tag = n }) k d db.tags)
tag_step _ db h k = ground arith

pub retag-cons :
    (k : TagKey) (a : RegistryAction) (acts : List RegistryAction) (o : Option Digest)
    → retag k (a ∷ acts) o ≡ retag k acts (retag k (a ∷ []) o)
retag-cons k empty acts o = refl
retag-cons k _ acts o = refl

-- A transaction that goes through acts on each blob and each manifest by its own changes, in
-- order, and leaves each tag at its last digest.
pub apply_actions-Agrees :
    (acts : List RegistryAction) (db : Db) {db' : Db}
    → apply_actions acts db ≡ ok db'
    → Agrees acts db db'
unfolding apply_actions
apply_actions-Agrees [] db h = record {
  at_blob = λ d. ground arith;
  at_manifest = λ d. ground arith;
  at_tag = λ k. ground arith;
}
apply_actions-Agrees (a ∷ acts) db {db'} h = elim (Outcome-cases (apply_action a db)) [
  | inl e ↦ absurd (ground arith)
  | inr (db₁, e) ↦
      let rest = apply_actions-Agrees acts db₁ {db' = db'} (ground arith) in
      record {
        at_blob = λ d. rw (blob_step a db e d) (rest.at_blob d);
        at_manifest = λ d. rw (manifest_step a db e d) (rest.at_manifest d);
        at_tag =
            λ k. cc (rest.at_tag k, tag_step a db e k, retag-cons k a acts (Map.lookup k db.tags));
      }
]

-- The changes that the actions make to the blob or to the manifest of `d` panic.
abbrev pub Panics : List RegistryAction → Db → Digest → Type 0
Panics acts db d =
    (evolve blob_change d acts (Map.lookup d db.blobs) ≡ panic)
    ⊎ (evolve manifest_change d acts (Map.lookup d db.manifests) ≡ panic)

apply_action-panic :
    (a : RegistryAction) (db : Db) → apply_action a db ≡ panic → (d : Digest) × Panics (a ∷ []) db d
unfolding apply_action stored change
apply_action-panic empty db h = absurd (ground arith)
apply_action-panic (blob_stored t d l u) db h = (d, inl (ground arith))
apply_action-panic (manifest_stored t d l u) db h = (d, inr (ground arith))
apply_action-panic _ db h = absurd (ground arith)

-- A transaction that panics does so because of one digest, whose own changes panic.
pub apply_actions-panic :
    (acts : List RegistryAction) (db : Db)
    → apply_actions acts db ≡ panic
    → (d : Digest) × Panics acts db d
unfolding apply_actions
apply_actions-panic [] db h = absurd (ground arith)
apply_actions-panic (a ∷ acts) db h = elim (Outcome-cases (apply_action a db)) [
  | inl e ↦ let (d, p) = apply_action-panic a db e in (d, now d p)
  | inr (db₁, e) ↦ let (d, p) = apply_actions-panic acts db₁ (ground arith) in (d, later db₁ e d p)
]
  where
    now : (d : Digest) → Panics (a ∷ []) db d → Panics (a ∷ acts) db d
    now d p = ground arith

    later :
        (db₁ : Db)
        → apply_action a db ≡ ok db₁
        → (d : Digest) → Panics acts db₁ d
        → Panics (a ∷ acts) db d
    later db₁ e d p = ground (arith, blob_step a db e d, manifest_step a db e d)
