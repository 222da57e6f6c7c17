-- ===== src/Http/Descriptions.antt =====
-- What the descriptions of src/extractor.rs do to the database when a push is applied.
use distribd.Prelude.{
  ℕ, suc, String, Option, none, some, List, [], ◌∷◌, ok, true, false, ◌≡◌, refl, arith, inl, inr,
  Bool-cases, ◌==◌, ==_refl, nat_eq, All,
}
use distribd.Prelude.Set
use distribd.Prelude.Set.{contains-insert, contains-cons}
use distribd.Types.{
  digest_eq, repository_eq, tag_key_eq, Digest, RepositoryName, Artifact, RegistryAction, blob_info,
  manifest_info,
}
use distribd.StateMachine.{Db}
use distribd.StateMachine.Artifacts.{change, informs, change_at, blob_change, manifest_change}
use distribd.StateMachine.Refinement.{evolve}
use distribd.Management.{Unstamped, stamp}
use distribd.Extractor.Allowed.{Describes}

-- The manifest is in the repository, on the node, of the size and of the type.
abbrev pub IsPushed : RepositoryName → ℕ → ℕ → String → Option Artifact → Type 0
IsPushed repository id size kind none = ⊥
IsPushed repository id size kind (some m) =
    (Set.contains m.repositories repository ≡ true)
    × (Set.contains m.locations id ≡ true)
    × (m.size ≡ some size)
    × (m.content_type ≡ some kind)

module _ (seen : Db) (repository : RepositoryName) (digest : Digest) (kind : String) where
  -- an action of the analysis, whatever its timestamp
  abbrev pub AreDescriptions : List Unstamped → Type 0
  AreDescriptions = All (λ act. (t : ℕ) → Describes seen repository digest kind (act t))

  -- a description changes no blob's entry into a panic
  blob_total :
      (d : Digest) (a : RegistryAction) (o : Option Artifact)
      → Describes seen repository digest kind a
      → (o' : Option Artifact) × (change_at d (blob_change a) o ≡ ok o')
  unfolding change
  blob_total d (manifest_info t d' ds c) o h = (o, refl)
  blob_total d (blob_info t d' ds c) o h = elim (Bool-cases (d' == d)) [
    | inr differ ↦ (o, rw differ refl)
    | inl same ↦ let (o', p) = informed t ds c o in (o', rw same p)
  ]
    where
      informed :
          (t : ℕ) (ds : List Digest) (c : String) (o : Option Artifact)
          → (o' : Option Artifact) × (change (informs t ds c) o ≡ ok o')
      informed t ds c none = (none, refl)
      informed t ds c (some b) =
          (some (record b { updated = t; dependencies = some ds; content_type = some c }), refl)
  blob_total d _ o h = absurd h

  pub blobs_total :
      (d : Digest) (clock : ℕ → ℕ) (k : ℕ) (acts : List Unstamped) (o : Option Artifact)
      → AreDescriptions acts
      → (o' : Option Artifact) × (evolve blob_change d (stamp clock k acts) o ≡ ok o')
  unfolding stamp
  blobs_total d clock k [] o h = (o, refl)
  blobs_total d clock k (a ∷ acts) o h =
      let (o₁, p) = blob_total d (a (clock k)) o (h.0 (clock k)) in
      let (o', q) = blobs_total d clock (suc k) acts o₁ h.1 in (o', rw (p, q) refl)

  -- another manifest keeps its entry
  pub others_kept :
      (d : Digest) (clock : ℕ → ℕ) (k : ℕ) (acts : List Unstamped) (o : Option Artifact)
      → AreDescriptions acts
      → ((digest == d) ≡ false)
      → evolve manifest_change d (stamp clock k acts) o ≡ ok o
  unfolding stamp
  others_kept d clock k [] o h differ = refl
  others_kept d clock k (a ∷ acts) o h differ =
      rw (one (a (clock k)) (h.0 (clock k))) (others_kept d clock (suc k) acts o h.1 differ)
    where
      one :
          (x : RegistryAction)
          → Describes seen repository digest kind x
          → change_at d (manifest_change x) o ≡ ok o
      one (manifest_info t d' ds c) g = rw (g.0, differ) refl
      one (blob_info t d' ds c) g = refl
      one _ g = absurd g

  module _ (id size : ℕ) where
    described :
        (a : RegistryAction) (m : Artifact)
        → Describes seen repository digest kind a
        → IsPushed repository id size kind (some m)
        → (m' : Artifact) × (change_at digest (manifest_change a) (some m) ≡ ok (some m'))
          × IsPushed repository id size kind (some m')
    unfolding change
    described (manifest_info t d ds c) m h p = (
      record m { updated = t; dependencies = some ds; content_type = some c },
      rw (h.0, ==_refl digest) refl,
      (p.0, p.1, p.2, ground (arith, h.1)),
    )
    described (blob_info t d ds c) m h p = (m, refl, p)
    described _ m h p = absurd h

    pub all_described :
        (clock : ℕ → ℕ) (k : ℕ) (acts : List Unstamped) (m : Artifact)
        → AreDescriptions acts
        → IsPushed repository id size kind (some m)
        → (m' : Artifact) × (evolve manifest_change digest (stamp clock k acts) (some m)
            ≡ ok (some m'))
          × IsPushed repository id size kind (some m')
    unfolding stamp
    all_described clock k [] m h p = (m, refl, p)
    all_described clock k (a ∷ acts) m h p =
        let (m₁, e, p₁) = described (a (clock k)) m (h.0 (clock k)) p in
        let (m', e', p') = all_described clock (suc k) acts m₁ h.1 p₁ in (m', rw (e, e') refl, p')
