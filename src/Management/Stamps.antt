-- ===== src/Management/Stamps.antt =====
-- The actions of an import, one digest or one tag at a time, whatever their timestamps.
use distribd.Prelude.{
  ℕ, suc, String, Option, none, some, List, [], ◌∷◌, ◌++◌, ok, ◌≡◌, refl, arith, All, All-append,
  ◌==◌, ==_refl, false, nat_eq,
}
use distribd.Prelude.Set
use distribd.Prelude.Set.{contains-extend, contains-nil}
use distribd.Types.{digest_eq, repository_eq, Digest, RepositoryName, Artifact, RegistryAction}
use distribd.StateMachine.{Tree}
use distribd.StateMachine.Artifacts.{Change, change, change_at, stores, mounts, informs, measures}
use distribd.StateMachine.Refinement.{evolve}
use distribd.StateMachine.Batches.{evolve-append}
use distribd.Management.{
  Unstamped, Kind, stamp, import_info, import_size, import_mounts, import_locations,
  import_artifact, import_artifacts, import_user,
}

pub stamp-append :
    (clock : ℕ → ℕ) (k : ℕ) (xs ys : List Unstamped)
    → (j : ℕ) × (stamp clock k (xs ++ ys) ≡ stamp clock k xs ++ stamp clock j ys)
unfolding stamp
stamp-append clock k [] ys = (k, refl)
stamp-append clock k (x ∷ xs) ys = let (j, e) = stamp-append clock (suc k) xs ys in (j, rw e refl)

-- The action, whenever it is made, is not about `d`.
abbrev pub Ignores : (RegistryAction → Option (Digest × Change)) → Digest → Unstamped → Type 0
Ignores f d act = (t : ℕ) (o : Option Artifact) → change_at d (f (act t)) o ≡ ok o

pub evolve-Ignores :
    (f : RegistryAction → Option (Digest × Change)) (d : Digest) (clock : ℕ → ℕ) (k : ℕ)
    (acts : List Unstamped) (o : Option Artifact)
    → All (Ignores f d) acts
    → evolve f d (stamp clock k acts) o ≡ ok o
unfolding stamp
evolve-Ignores f d clock k [] o h = refl
evolve-Ignores f d clock k (a ∷ acts) o h =
    rw (h.0 (clock k) o) (evolve-Ignores f d clock (suc k) acts o h.1)

-- `P` holds of the four actions about the digest.
pub record Holds (kind : Kind) (P : Unstamped → Type 0) (d : Digest) : Type 0 where
  pub mounted : (r : RepositoryName) → P (λ t. kind.mounted t d r import_user)
  pub stored : (l : ℕ) → P (λ t. kind.stored t d l import_user)
  pub info : (ds : List Digest) (c : String) → P (λ t. kind.info t d ds c)
  pub stat : (n : ℕ) → P (λ t. kind.stat t d n)

module _ (kind : Kind) (P : Unstamped → Type 0) where
  module _ (d : Digest) (holds : Holds kind P d) where
    mounts-All : (rs : List RepositoryName) → All P (import_mounts kind d rs)
    unfolding import_mounts
    mounts-All [] = tt
    mounts-All (r ∷ rs) = (holds.mounted r, mounts-All rs)

    locations-All : (ls : List ℕ) → All P (import_locations kind d ls)
    unfolding import_locations
    locations-All [] = tt
    locations-All (l ∷ ls) = (holds.stored l, locations-All ls)

    info-All : (ds : Option (List Digest)) (c : Option String) → All P (import_info kind d ds c)
    info-All (some ds) (some c) = (holds.info ds c, tt)
    info-All none c = tt
    info-All (some ds) none = tt

    size-All : (n : Option ℕ) → All P (import_size kind d n)
    size-All none = tt
    size-All (some n) = (holds.stat n, tt)

    pub import_artifact-All : (a : Artifact) → All P (import_artifact kind d a)
    unfolding import_artifact
    import_artifact-All a = All-append P _ _ (mounts-All a.repositories) (
        All-append P _ _ (locations-All a.locations)
          (All-append P _ _ (info-All a.dependencies a.content_type) (size-All a.size)))

  pub import_artifacts-All :
      ((d : Digest) → Holds kind P d) → (rows : Tree) → All P (import_artifacts kind rows)
  unfolding import_artifacts
  import_artifacts-All h [] = tt
  import_artifacts-All h ((d, a) ∷ rows) =
      All-append P _ _ (import_artifact-All d (h d) a) (import_artifacts-All h rows)

-- How the four actions of a kind are read.
pub record Reads (f : RegistryAction → Option (Digest × Change)) (kind : Kind) : Type 0 where
  pub mounted :
      (t : ℕ) (d : Digest) (r : RepositoryName) (u : String)
      → f (kind.mounted t d r u) ≡ some (d, mounts t r)
  pub stored :
      (t : ℕ) (d : Digest) (l : ℕ) (u : String) → f (kind.stored t d l u) ≡ some (d, stores t l)
  pub info :
      (t : ℕ) (d : Digest) (ds : List Digest) (c : String)
      → f (kind.info t d ds c) ≡ some (d, informs t ds c)
  pub stat : (t : ℕ) (d : Digest) (n : ℕ) → f (kind.stat t d n) ≡ some (d, measures t n)

-- an artifact that is mounted and stored, and not yet described
abbrev pub bare : ℕ → ℕ → List RepositoryName → List ℕ → Artifact
bare made changed rs ls = record {
  created = made;
  updated = changed;
  content_type = none;
  size = none;
  dependencies = some [];
  locations = ls;
  repositories = rs;
}

-- the descriptions that `info` can have left behind
abbrev pub AreDescribed : Option (List Digest) → Option String → Type 0
AreDescribed ds none = ds ≡ some []
AreDescribed none (some c) = ⊥
AreDescribed (some ds) (some c) = Unit

module _ (f : RegistryAction → Option (Digest × Change)) (kind : Kind) (reads : Reads f kind) where
  pub import_artifact-Ignores :
      (d d' : Digest) (differ : (d' == d) ≡ false) (a : Artifact)
      → All (Ignores f d) (import_artifact kind d' a)
  import_artifact-Ignores d d' differ = import_artifact-All kind (Ignores f d) d' (record {
    mounted = λ r t o. rw (reads.mounted t d' r import_user, differ) refl;
    stored = λ l t o. rw (reads.stored t d' l import_user, differ) refl;
    info = λ ds c t o. rw (reads.info t d' ds c, differ) refl;
    stat = λ n t o. rw (reads.stat t d' n, differ) refl;
  })

  -- What the four lists of actions do to the entry of their own digest.
  module _ (d : Digest) (clock : ℕ → ℕ) where
    own : (c : Change) (o : Option Artifact) → change_at d (some (d, c)) o ≡ change c o
    own c o = rw (==_refl d) refl

    evolve-mounts :
        (rs : List RepositoryName) (k : ℕ) (a : Artifact)
        → (t : ℕ) × (evolve f d (stamp clock k (import_mounts kind d rs)) (some a)
            ≡ ok (some (record a { updated = t; repositories = Set.extend rs a.repositories })))
    unfolding stamp import_mounts change Set.extend
    evolve-mounts [] k a = (a.updated, refl)
    evolve-mounts (r ∷ rs) k a =
        let (t, e) =
          evolve-mounts rs (suc k)
            (record a { updated = clock k; repositories = Set.insert r a.repositories }) in
        (t, rw (reads.mounted (clock k) d r import_user, ==_refl d) e)

    evolve-locations :
        (ls : List ℕ) (k : ℕ) (a : Artifact)
        → (t : ℕ) × (evolve f d (stamp clock k (import_locations kind d ls)) (some a)
            ≡ ok (some (record a { updated = t; locations = Set.extend ls a.locations })))
    unfolding stamp import_locations change Set.extend
    evolve-locations [] k a = (a.updated, refl)
    evolve-locations (l ∷ ls) k a =
        let (t, e) =
          evolve-locations ls (suc k)
            (record a { updated = clock k; locations = Set.insert l a.locations }) in
        (t, rw (reads.stored (clock k) d l import_user, ==_refl d) e)

    evolve-details :
        (ds : Option (List Digest)) (c : Option String) (n : Option ℕ) (k made changed : ℕ)
        (rs : List RepositoryName) (ls : List ℕ)
        → AreDescribed ds c
        → (t : ℕ) × (evolve f d
              (stamp clock k (import_info kind d ds c ++ import_size kind d n))
              (some (bare made changed rs ls))
            ≡ ok (
                some
                  (record (bare made t rs ls) { size = n; content_type = c; dependencies = ds })))
    unfolding stamp change
    evolve-details none none none k made changed rs ls h = absurd (ground arith)
    evolve-details none none (some n) k made changed rs ls h = absurd (ground arith)
    evolve-details none (some c) n k made changed rs ls h = absurd h
    evolve-details (some ds) none none k made changed rs ls h = (changed, rw h refl)
    evolve-details (some ds) none (some n) k made changed rs ls h =
        (clock k, rw (reads.stat (clock k) d n, ==_refl d, h) refl)
    evolve-details (some ds) (some c) none k made changed rs ls h =
        (clock k, rw (reads.info (clock k) d ds c, ==_refl d) refl)
    evolve-details (some ds) (some c) (some n) k made changed rs ls h = (
      clock (suc k),
      rw (reads.info (clock k) d ds c, reads.stat (clock (suc k)) d n, ==_refl d) refl,
    )

    evolve-rest :
        (a : Artifact) (k made changed : ℕ) (rs : List RepositoryName)
        → AreDescribed a.dependencies a.content_type
        → (t : ℕ) × (evolve f d
              (stamp clock k (
                import_locations kind d a.locations
                ++ (import_info kind d a.dependencies a.content_type ++ import_size kind d a.size)))
              (some (bare made changed rs []))
            ≡ ok (
                some (record (bare made t rs (Set.extend a.locations [])) {
                  size = a.size;
                  content_type = a.content_type;
                  dependencies = a.dependencies;
                })))
    evolve-rest a k made changed rs h =
        let details =
          import_info kind d a.dependencies a.content_type ++ import_size kind d a.size in
        let locs = import_locations kind d a.locations in
        let (j, split) = stamp-append clock k locs details in
        let (t, located) = evolve-locations a.locations k (bare made changed rs []) in
        let (t', described) =
          evolve-details a.dependencies a.content_type a.size j made t rs
            (Set.extend a.locations []) h in
        (
          t',
          rw (split, evolve-append f d (stamp clock k locs) (stamp clock j details), located)
              described,
        )

    from_none :
        (qs : List RepositoryName) (k : ℕ)
        → Set.is_empty qs ≡ false
        → (i t : ℕ) × (rs : List RepositoryName) × (evolve f d
              (stamp clock k (import_mounts kind d qs))
              none
            ≡ ok (some (bare (clock i) t rs [])))
          × ((q : RepositoryName) → Set.contains rs q ≡ Set.contains qs q)
    unfolding stamp import_mounts change Set.contains
    from_none [] k e = absurd (ground arith)
    from_none (q ∷ qs) k e =
        let (t, mounted) = evolve-mounts qs (suc k) (bare (clock k) (clock k) (q ∷ []) []) in
        (
          k,
          t,
          Set.extend qs (q ∷ []),
          rw (reads.mounted (clock k) d q import_user, ==_refl d) mounted,
          (λ p. ground (arith, contains-extend qs (q ∷ []) p)),
        )

    -- An artifact that some repository has is there after the actions of its import.
    pub evolve-import_artifact :
        (a : Artifact) (k : ℕ)
        → Set.is_empty a.repositories ≡ false
        → AreDescribed a.dependencies a.content_type
        → (i t : ℕ) × (rs : List RepositoryName) × (evolve f d
              (stamp clock k (import_artifact kind d a))
              none
            ≡ ok (
                some (record (bare (clock i) t rs (Set.extend a.locations [])) {
                  size = a.size;
                  content_type = a.content_type;
                  dependencies = a.dependencies;
                })))
          × ((q : RepositoryName) → Set.contains rs q ≡ Set.contains a.repositories q)
    unfolding import_artifact
    evolve-import_artifact a k some_one h =
        let details =
          import_info kind d a.dependencies a.content_type ++ import_size kind d a.size in
        let rest = import_locations kind d a.locations ++ details in
        let (j, split) = stamp-append clock k (import_mounts kind d a.repositories) rest in
        let (i, t, rs, mounted, same) = from_none a.repositories k some_one in
        let (t', done) = evolve-rest a j (clock i) t rs h in
        (
          i,
          t',
          rs,
          rw
              (
                split,
                evolve-append f d (stamp clock k (import_mounts kind d a.repositories))
                    (stamp clock j rest),
                mounted,
              )
              done,
          same,
        )
