-- ===== src/Garbage/Safety.antt =====
-- What the sweeps' transactions do to the database that they were computed from.
use distribd.Prelude.{
  ℕ, Option, some, List, [], ◌∷◌, ok, Bool, ◌≡◌, refl, arith, inl, inr, All, Bool-cases, ==_eq, sym,
  ◌==◌, subst,
}
use distribd.Prelude.Map
use distribd.Types.{
  digest_eq, tag_key_eq, Digest, TagKey, Artifact, RegistryAction, blob_unstored, blob_unmounted,
  manifest_unstored, manifest_unmounted,
}
use distribd.StateMachine.{Db, apply_action, apply_actions}
use distribd.StateMachine.Artifacts.{Change, change_at, blob_change, manifest_change}
use distribd.StateMachine.Refinement.{evolve, retag, apply_actions-Agrees}
use distribd.StateMachine.Keys.{IsKeyed}
use distribd.Orphans.{roots}
use distribd.Orphans.Reach.{Reach, Picks}
use distribd.Orphans.Tags.{Tagged}
use distribd.Garbage.{Clock, do_garbage_collect_phase1, do_garbage_collect_phase2}
use distribd.Garbage.Sweeps.{
  IsOldMount, IsLocalOrphan, do_garbage_collect_phase1-IsOldMount,
  do_garbage_collect_phase2-IsLocalOrphan,
}

-- the action takes something away, and not from the manifest or the blob that is named
abbrev Spares : Db → RegistryAction → Type 0
Spares db (blob_unstored t d l u) = ¬ Reach (roots db) db.blobs d
Spares db (blob_unmounted t d r u) = ¬ Reach (roots db) db.blobs d
Spares db (manifest_unstored t d l u) = ¬ Tagged db d
Spares db (manifest_unmounted t d r u) = ¬ Tagged db d
Spares db _ = ⊥

old-Spares :
    (clock : Clock) (db : Db) (acts : List RegistryAction)
    → All (IsOldMount clock db) acts
    → All (Spares db) acts
old-Spares clock db [] h = tt
old-Spares clock db (manifest_unmounted t d r u ∷ acts) h = (h.0.0, old-Spares clock db acts h.1)
old-Spares clock db (blob_unmounted t d r u ∷ acts) h = (h.0.0, old-Spares clock db acts h.1)
old-Spares clock db (_ ∷ acts) h = absurd h.0

local-Spares :
    (id : ℕ) (mc bc : Digest → Bool) (db : Db) (acts : List RegistryAction)
    → All (IsLocalOrphan id mc bc db) acts
    → All (Spares db) acts
local-Spares id mc bc db [] h = tt
local-Spares id mc bc db (manifest_unstored t d l u ∷ acts) h =
    (h.0.2, local-Spares id mc bc db acts h.1)
local-Spares id mc bc db (blob_unstored t d l u ∷ acts) h =
    (h.0.2, local-Spares id mc bc db acts h.1)
local-Spares id mc bc db (_ ∷ acts) h = absurd h.0

spare_step :
    (db₀ : Db) (a : RegistryAction) (db : Db)
    → Spares db₀ a
    → (db' : Db) × (apply_action a db ≡ ok db')
unfolding apply_action
spare_step db₀ (blob_unstored t d l u) db s = (_, refl)
spare_step db₀ (blob_unmounted t d r u) db s = (_, refl)
spare_step db₀ (manifest_unstored t d l u) db s = (_, refl)
spare_step db₀ (manifest_unmounted t d r u) db s = (_, refl)
spare_step db₀ _ db s = absurd s

Spares-apply :
    (db₀ : Db) (acts : List RegistryAction) (db : Db)
    → All (Spares db₀) acts
    → (db' : Db) × (apply_actions acts db ≡ ok db')
unfolding apply_actions
Spares-apply db₀ [] db h = (db, refl)
Spares-apply db₀ (a ∷ acts) db h =
    let (db₁, e) = spare_step db₀ a db h.0 in
    let (db', p) = Spares-apply db₀ acts db₁ h.1 in (db', rw e p)

-- A digest that is not the action's own keeps its entry.
other_digest :
    (d d' : Digest) (c : Change) (o : Option Artifact)
    → ¬ (d' ≡ d)
    → change_at d (some (d', c)) o ≡ ok o
other_digest d d' c o n = elim (Bool-cases (d' == d)) [
  | inl same ↦ absurd (n (==_eq d' d same))
  | inr differ ↦ rw (differ, change_at) refl
]

module _ (db₀ : Db) (d : Digest) where
  blob_spared :
      (a : RegistryAction) (o : Option Artifact)
      → Reach (roots db₀) db₀.blobs d
      → Spares db₀ a
      → change_at d (blob_change a) o ≡ ok o
  blob_spared (blob_unstored t d' l u) o r s =
      other_digest d d' _ o (λ e. s (subst (Reach (roots db₀) db₀.blobs) (sym e) r))
  blob_spared (blob_unmounted t d' q u) o r s =
      other_digest d d' _ o (λ e. s (subst (Reach (roots db₀) db₀.blobs) (sym e) r))
  blob_spared (manifest_unstored t d' l u) o r s = refl
  blob_spared (manifest_unmounted t d' q u) o r s = refl
  blob_spared _ o r s = absurd s

  manifest_spared :
      (a : RegistryAction) (o : Option Artifact)
      → Tagged db₀ d
      → Spares db₀ a
      → change_at d (manifest_change a) o ≡ ok o
  manifest_spared (manifest_unstored t d' l u) o r s =
      other_digest d d' _ o (λ e. s (subst (Tagged db₀) (sym e) r))
  manifest_spared (manifest_unmounted t d' q u) o r s =
      other_digest d d' _ o (λ e. s (subst (Tagged db₀) (sym e) r))
  manifest_spared (blob_unstored t d' l u) o r s = refl
  manifest_spared (blob_unmounted t d' q u) o r s = refl
  manifest_spared _ o r s = absurd s

  blobs_spared :
      (acts : List RegistryAction) (o : Option Artifact)
      → Reach (roots db₀) db₀.blobs d
      → All (Spares db₀) acts
      → evolve blob_change d acts o ≡ ok o
  blobs_spared [] o r s = refl
  blobs_spared (a ∷ acts) o r s = rw (blob_spared a o r s.0) (blobs_spared acts o r s.1)

  manifests_spared :
      (acts : List RegistryAction) (o : Option Artifact)
      → Tagged db₀ d
      → All (Spares db₀) acts
      → evolve manifest_change d acts o ≡ ok o
  manifests_spared [] o r s = refl
  manifests_spared (a ∷ acts) o r s = rw (manifest_spared a o r s.0) (manifests_spared acts o r s.1)

tags_spared :
    (db₀ : Db) (k : TagKey) (acts : List RegistryAction) (o : Option Digest)
    → All (Spares db₀) acts
    → retag k acts o ≡ o
tags_spared db₀ k [] o s = refl
tags_spared db₀ k (blob_unstored t d l u ∷ acts) o s = tags_spared db₀ k acts o s.1
tags_spared db₀ k (blob_unmounted t d l u ∷ acts) o s = tags_spared db₀ k acts o s.1
tags_spared db₀ k (manifest_unstored t d l u ∷ acts) o s = tags_spared db₀ k acts o s.1
tags_spared db₀ k (manifest_unmounted t d l u ∷ acts) o s = tags_spared db₀ k acts o s.1
tags_spared db₀ k (_ ∷ acts) o s = absurd s.0

-- Every blob that a manifest of `db₀` reaches, every manifest that a tag of it names, and every tag
-- is in `db'` what it is in `db`.
pub record KeepsUsed (db₀ db db' : Db) : Type 0 where
  pub used_blob :
      (d : Digest) → Reach (roots db₀) db₀.blobs d → Map.lookup d db'.blobs ≡ Map.lookup d db.blobs
  pub used_manifest :
      (d : Digest) → Tagged db₀ d → Map.lookup d db'.manifests ≡ Map.lookup d db.manifests
  pub any_tag : (k : TagKey) → Map.lookup k db'.tags ≡ Map.lookup k db.tags

Spares-KeepsUsed :
    (db₀ db : Db) (acts : List RegistryAction)
    → All (Spares db₀) acts
    → (db' : Db) × (apply_actions acts db ≡ ok db') × KeepsUsed db₀ db db'
Spares-KeepsUsed db₀ db acts s =
    let (db', e) = Spares-apply db₀ acts db s in
    let agrees = apply_actions-Agrees acts db e in
    (
      db',
      e,
      record {
        used_blob = λ d r.
            ground (arith, agrees.at_blob d, blobs_spared db₀ d acts (Map.lookup d db.blobs) r s);
        used_manifest = λ d t. ground (
          arith,
          agrees.at_manifest d,
          manifests_spared db₀ d acts (Map.lookup d db.manifests) t s,
        );
        any_tag =
            λ k. ground (arith, agrees.at_tag k, tags_spared db₀ k acts (Map.lookup k db.tags) s);
      },
    )

module _ (pick : List Digest → Option Digest) (picks : Picks pick) (db₀ : Db) (keyed : IsKeyed db₀)
    (clock : Clock) (db : Db) where
  -- The transaction of the first sweep, computed from a database without two rows of one key and
  -- applied to any other that the log has led to meanwhile, goes through and keeps what was in use in
  -- the first: each blob that a manifest reaches, each manifest that a tag names, and each tag.
  pub do_garbage_collect_phase1-KeepsUsed :
      (acts : List RegistryAction) × (do_garbage_collect_phase1 clock pick db₀ ≡ some acts)
      × ((db' : Db) × (apply_actions acts db ≡ ok db') × KeepsUsed db₀ db db')
  do_garbage_collect_phase1-KeepsUsed =
      let (acts, e, old) = do_garbage_collect_phase1-IsOldMount pick picks db₀ keyed clock in
      (acts, e, Spares-KeepsUsed db₀ db acts (old-Spares clock db₀ acts old))

  -- The transaction of the second sweep, computed from a database without two rows of one key and
  -- applied to any other, goes through and keeps what was in use in the first.
  pub do_garbage_collect_phase2-KeepsUsed :
      (id : ℕ) (mc bc : Digest → Bool)
      → (acts : List RegistryAction) × (do_garbage_collect_phase2 clock id mc bc pick db₀
          ≡ some acts)
        × ((db' : Db) × (apply_actions acts db ≡ ok db') × KeepsUsed db₀ db db')
  do_garbage_collect_phase2-KeepsUsed id mc bc =
      let (acts, e, left) =
        do_garbage_collect_phase2-IsLocalOrphan pick picks db₀ keyed clock id mc bc in
      (acts, e, Spares-KeepsUsed db₀ db acts (local-Spares id mc bc db₀ acts left))
