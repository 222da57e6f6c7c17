-- ===== src/Management/Retags.antt =====
-- What the actions of one import do to one tag.
use distribd.Prelude.{
  ℕ, suc, String, Option, none, some, List, [], ◌∷◌, ◌++◌, if◌then◌else◌, ◌≡◌, refl, arith, All,
  ◌==◌, nat_eq, string_eq,
}
use distribd.Prelude.Map
use distribd.Prelude.Map.{Map, HasUniqueKeys, AllRows, or_else, lookup-nil}
use distribd.Types.{digest_eq, repository_eq, tag_key_eq, Digest, TagKey, RepositoryName}
use distribd.StateMachine.Refinement.{retag, retag-cons}
use distribd.StateMachine.Batches.{retag-append}
use distribd.Snapshot.{Tags}
use distribd.Snapshot.Trees.{key_eq, grouped, AreKeyed}
use distribd.Management.{
  Unstamped, blob_kind, manifest_kind, ImportBody, stamp, import_artifacts, import_repository,
  import_tags, import_actions,
}
use distribd.Management.Stamps.{stamp-append, import_artifacts-All}

-- The action leaves the tag alone.
abbrev pub Skips : TagKey → Unstamped → Type 0
Skips k act = (t : ℕ) (o : Option Digest) → retag k (act t ∷ []) o ≡ o

module _ (clock : ℕ → ℕ) (k : TagKey) where
  pub retag-Skips :
      (i : ℕ) (acts : List Unstamped) (o : Option Digest)
      → All (Skips k) acts
      → retag k (stamp clock i acts) o ≡ o
  unfolding stamp
  retag-Skips i [] o h = refl
  retag-Skips i (a ∷ acts) o h = cc (
    retag-cons k (a (clock i)) (stamp clock (suc i) acts) o,
    h.0 (clock i) o,
    retag-Skips (suc i) acts o h.1,
  )

  retag-import_repository :
      (r : RepositoryName) (tags : Map String Digest) (i : ℕ) (o : Option Digest)
      → HasUniqueKeys tags
      → retag k (stamp clock i (import_repository r tags)) o
        ≡ or_else (if r == k.repository then Map.lookup k.tag tags else none) o
  unfolding stamp import_repository Map.lookup
  retag-import_repository r [] i o u = ground arith
  retag-import_repository r ((tag, d) ∷ tags) i o u = ground (
    arith,
    retag-import_repository r tags (suc i)
        (if record { repository = r; tag = tag } == k then some d else o) u.1,
    key_eq (record { repository = r; tag = tag }) k,
  )

  retag-import_tags :
      (rows : Tags) (i : ℕ) (o : Option Digest)
      → AreKeyed rows
      → retag k (stamp clock i (import_tags rows)) o ≡ or_else (grouped k rows) o
  unfolding stamp import_tags Map.lookup
  retag-import_tags [] i o u = ground arith
  retag-import_tags ((r, tags) ∷ rows) i o u =
      let (j, split) = stamp-append clock i (import_repository r tags) (import_tags rows) in
      ground (
        arith,
        split,
        retag-append k (stamp clock i (import_repository r tags)) (stamp clock j (import_tags rows))
            o,
        retag-import_repository r tags i o u.1,
        retag-import_tags rows j (retag k (stamp clock i (import_repository r tags)) o) u.2,
      )

  Skips-kinds :
      (body : ImportBody)
      → All (Skips k) (import_artifacts blob_kind body.blobs)
        × All (Skips k) (import_artifacts manifest_kind body.manifests)
  Skips-kinds body = (
    import_artifacts-All blob_kind (Skips k)
        (λ x. record {
          mounted = λ r t q. refl;
          stored = λ l t q. refl;
          info = λ ds c t q. refl;
          stat = λ n t q. refl;
        })
        body.blobs,
    import_artifacts-All manifest_kind (Skips k)
        (λ x. record {
          mounted = λ r t q. refl;
          stored = λ l t q. refl;
          info = λ ds c t q. refl;
          stat = λ n t q. refl;
        })
        body.manifests,
  )

  pub tag_outcome :
      (body : ImportBody)
      → AreKeyed body.tags
      → retag k (import_actions clock body) none ≡ grouped k body.tags
  unfolding import_actions
  tag_outcome body u =
      let blobs = import_artifacts blob_kind body.blobs in
      let manifests = import_artifacts manifest_kind body.manifests in
      let (i, split) = stamp-append clock 0 blobs (manifests ++ import_tags body.tags) in
      let (j, split') = stamp-append clock i manifests (import_tags body.tags) in
      let skips = Skips-kinds body in
      ground (
        arith,
        split,
        split',
        retag-append k (stamp clock 0 blobs) (stamp clock i (manifests ++ import_tags body.tags))
            none,
        retag-Skips 0 blobs none skips.0,
        retag-append k (stamp clock i manifests) (stamp clock j (import_tags body.tags)) none,
        retag-Skips i manifests none skips.1,
        retag-import_tags body.tags j none u,
      )
