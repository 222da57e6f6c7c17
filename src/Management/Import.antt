-- ===== src/Management/Import.antt =====
-- What an import does to an empty database.
use distribd.Prelude.{
  ℕ, String, Option, none, [], ◌∷◌, ◌++◌, ok, ◌≡◌, refl, arith, subst, inl, inr, Outcome-cases, All,
  All-append, nat_eq, string_eq,
}
use distribd.Prelude.Map
use distribd.Prelude.Map.{Map, HasUniqueKeys, AllRows, or_else, lookup-nil}
use distribd.Types.{
  digest_eq, repository_eq, tag_key_eq, Digest, TagKey, RepositoryName, Artifact, hash_tagged,
}
use distribd.StateMachine.{Db, fresh, apply_actions}
use distribd.StateMachine.Artifacts.{blob_change, manifest_change}
use distribd.StateMachine.Refinement.{evolve, apply_actions-Agrees, apply_actions-panic, Panics}
use distribd.StateMachine.Batches.{evolve-append}
use distribd.Snapshot.{Tags}
use distribd.Snapshot.Trees.{grouped, AreKeyed}
use distribd.Management.{
  Unstamped, blob_kind, manifest_kind, ImportBody, stamp, import_artifacts, import_repository,
  import_tags, import_actions, import_user,
}
use distribd.Management.Stamps.{stamp-append, Ignores, evolve-Ignores, import_artifacts-All, Reads}
use distribd.Management.Copies.{IsImportable, AreCopies, evolve-rows}
use distribd.Management.Retags.{tag_outcome}

-- The actions about tags are about no digest, and those about blobs about no manifest.
module _ (P : Unstamped → Type 0)
    (holds : (r : RepositoryName) (tag : String) (d : Digest)
      → P (λ t. hash_tagged t d r tag import_user)) where
  import_repository-All :
      (r : RepositoryName) (tags : Map String Digest) → All P (import_repository r tags)
  unfolding import_repository
  import_repository-All r [] = tt
  import_repository-All r ((tag, d) ∷ tags) = (holds r tag d, import_repository-All r tags)

  import_tags-All : (rows : Tags) → All P (import_tags rows)
  unfolding import_tags
  import_tags-All [] = tt
  import_tags-All ((r, tags) ∷ rows) =
      All-append P _ _ (import_repository-All r tags) (import_tags-All rows)

pub blob-Reads : Reads blob_change blob_kind
blob-Reads = record {
  mounted = λ t d r u. refl;
  stored = λ t d l u. refl;
  info = λ t d ds c. refl;
  stat = λ t d n. refl;
}

manifest-Reads : Reads manifest_change manifest_kind
manifest-Reads = record {
  mounted = λ t d r u. refl;
  stored = λ t d l u. refl;
  info = λ t d ds c. refl;
  stat = λ t d n. refl;
}

module _ (d : Digest) (clock : ℕ → ℕ) (body : ImportBody) where
  blob_outcome :
      HasUniqueKeys body.blobs
      → AllRows IsImportable body.blobs
      → (o : Option Artifact) × (evolve blob_change d (import_actions clock body) none ≡ ok o)
        × AreCopies clock (Map.lookup d body.blobs) o
  unfolding import_actions
  blob_outcome u h =
      let rest = import_artifacts manifest_kind body.manifests ++ import_tags body.tags in
      let (j, split) = stamp-append clock 0 (import_artifacts blob_kind body.blobs) rest in
      let (o, e, copies) = evolve-rows blob_change blob_kind blob-Reads d clock body.blobs 0 u h in
      (
        o,
        rw
            (
              split,
              evolve-append blob_change d (stamp clock 0 (import_artifacts blob_kind body.blobs))
                  (stamp clock j rest),
              e,
            )
            (evolve-Ignores blob_change d clock j rest o (
              All-append (Ignores blob_change d) _ _
                (import_artifacts-All manifest_kind (Ignores blob_change d)
                  (λ x. record {
                    mounted = λ r t q. refl;
                    stored = λ l t q. refl;
                    info = λ ds c t q. refl;
                    stat = λ n t q. refl;
                  })
                  body.manifests)
                (import_tags-All (Ignores blob_change d) (λ r tag x t q. refl) body.tags))),
        copies,
      )

  manifest_outcome :
      HasUniqueKeys body.manifests
      → AllRows IsImportable body.manifests
      → (o : Option Artifact) × (evolve manifest_change d (import_actions clock body) none ≡ ok o)
        × AreCopies clock (Map.lookup d body.manifests) o
  unfolding import_actions
  manifest_outcome u h =
      let acts = import_artifacts manifest_kind body.manifests in
      let (i, split) =
        stamp-append clock 0 (import_artifacts blob_kind body.blobs)
          (acts ++ import_tags body.tags) in
      let (j, split') = stamp-append clock i acts (import_tags body.tags) in
      let (o, e, copies) =
        evolve-rows manifest_change manifest_kind manifest-Reads d clock body.manifests i u h in
      (
        o,
        rw
            (
              split,
              evolve-append manifest_change d
                  (stamp clock 0 (import_artifacts blob_kind body.blobs))
                  (stamp clock i (acts ++ import_tags body.tags)),
              evolve-Ignores manifest_change d clock 0 _ none (
                  import_artifacts-All blob_kind (Ignores manifest_change d)
                    (λ x. record {
                      mounted = λ r t q. refl;
                      stored = λ l t q. refl;
                      info = λ ds c t q. refl;
                      stat = λ n t q. refl;
                    })
                    body.blobs),
              split',
              evolve-append manifest_change d (stamp clock i acts)
                  (stamp clock j (import_tags body.tags)),
              e,
            )
            (evolve-Ignores manifest_change d clock j (import_tags body.tags) o
              (import_tags-All (Ignores manifest_change d) (λ r tag x t q. refl) body.tags)),
        copies,
      )

-- a body as it arrives from JSON maps: every key once
pub record IsBody (body : ImportBody) : Type 0 where
  pub blobs : HasUniqueKeys body.blobs
  pub manifests : HasUniqueKeys body.manifests
  pub tags : AreKeyed body.tags

-- The database holds copies of the body's artifacts, its tags, and nothing else.
pub record IsImported (clock : ℕ → ℕ) (body : ImportBody) (db : Db) : Type 0 where
  pub blobs : (d : Digest) → AreCopies clock (Map.lookup d body.blobs) (Map.lookup d db.blobs)
  pub manifests :
      (d : Digest) → AreCopies clock (Map.lookup d body.manifests) (Map.lookup d db.manifests)
  pub tags : (k : TagKey) → Map.lookup k db.tags ≡ grouped k body.tags

module _ (clock : ℕ → ℕ) (body : ImportBody) (keyed : IsBody body) where
  -- The transaction of an import, applied to an empty database, goes through where each artifact of
  -- the body has a repository and a description that `info` leaves behind, and the database is then
  -- the body: its artifacts, but for their times and the order of their sets, and its tags.
  pub import_actions-IsImported :
      AllRows IsImportable body.blobs
      → AllRows IsImportable body.manifests
      → (db : Db) × (apply_actions (import_actions clock body) fresh ≡ ok db)
        × IsImported clock body db
  import_actions-IsImported blobs manifests =
      elim (Outcome-cases (apply_actions (import_actions clock body) fresh)) [
        | inl e ↦
            let (d, p) = apply_actions-panic (import_actions clock body) fresh e in
            absurd (never d p)
        | inr (db, e) ↦
            let agrees = apply_actions-Agrees (import_actions clock body) fresh e in
            (
              db,
              e,
              record {
                blobs = λ d.
                    let (o, p, copies) = blob_outcome d clock body keyed.blobs blobs in
                    subst (AreCopies clock (Map.lookup d body.blobs))
                      (ground (arith, p, agrees.at_blob d, lookup-nil {V = Artifact} d)) copies;
                manifests = λ d.
                    let (o, p, copies) = manifest_outcome d clock body keyed.manifests manifests in
                    subst (AreCopies clock (Map.lookup d body.manifests))
                      (ground (arith, p, agrees.at_manifest d, lookup-nil {V = Artifact} d)) copies;
                tags = λ k. ground (
                  arith,
                  agrees.at_tag k,
                  lookup-nil {V = Digest} k,
                  tag_outcome clock k body keyed.tags,
                );
              },
            )
      ]
    where
      never : (d : Digest) → Panics (import_actions clock body) fresh d → ⊥
      never d p =
          let (o, b, copies) = blob_outcome d clock body keyed.blobs blobs in
          let (q, m, copies') = manifest_outcome d clock body keyed.manifests manifests in
          ground (arith, b, m, lookup-nil {V = Artifact} d, p)
