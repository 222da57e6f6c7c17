-- ===== src/Http/Push.antt =====
-- A push and a pull together: src/registry/manifests/put.rs with the actions of src/extractor.rs,
-- the database that they lead to, and what src/registry/manifests/get.rs answers from it.
pub mod Pull
pub mod Mirrored
use distribd.Prelude.{
  ℕ, suc, String, Option, none, some, List, [], ◌∷◌, ◌++◌, Outcome, ok, panic, ◌>>=◌, Bool, true,
  false, ◌≡◌, refl, sym, ◌∙◌, arith, subst, ==_eq, inl, inr, Bool-cases, Outcome-cases, ◌==◌,
  ==_refl, nat_eq, All,
}
use distribd.Prelude.Set
use distribd.Prelude.Set.{contains-insert, contains-cons}
use distribd.Prelude.Map
use distribd.Types.{
  digest_eq, repository_eq, tag_key_eq, Digest, RepositoryName, TagKey, Artifact, RegistryAction,
  blob_info, manifest_info, hash_tagged,
}
use distribd.StateMachine.{Db, apply_actions}
use distribd.StateMachine.Artifacts.{
  Change, change, informs, change_at, blob_change, manifest_change,
}
use distribd.StateMachine.Refinement.{
  evolve, retag, apply_actions-Agrees, apply_actions-panic, Panics,
}
use distribd.StateMachine.Batches.{evolve-append, retag-append}
use distribd.Management.{Unstamped, stamp}
use distribd.Extractor.Allowed.{Describes, StartsWithInfo}
use distribd.Http.Manifests.{put_actions}
use distribd.Http.Descriptions.{IsPushed, AreDescriptions, blobs_total, others_kept, all_described}

module _ (seen : Db) (repository : RepositoryName) (digest : Digest) (kind : String) where
  module _ (id size : ℕ) where
    module _ (clock : ℕ → ℕ) (now : ℕ → ℕ) (user tag : String) (acts : List Unstamped) where
      abbrev pub pushed_actions : List RegistryAction
      pushed_actions = put_actions id now user repository tag digest size (stamp clock 0 acts)

      abbrev key : TagKey
      key = record { repository = repository; tag = tag }

      -- what a push leaves behind
      pub record HasPushed (db : Db) : Type 0 where
        pub at_digest : IsPushed repository id size kind (Map.lookup digest db.manifests)
        pub at_tag : Map.lookup key db.tags ≡ some digest

      -- the first description gives the type
      typed :
          (ds : List Digest) (rest : List Unstamped) (m : Artifact)
          → AreDescriptions seen repository digest kind rest
          → Set.contains m.repositories repository ≡ true
          → Set.contains m.locations id ≡ true
          → m.size ≡ some size
          → (m' : Artifact) × (evolve manifest_change digest
                (stamp clock 0 ((λ t. manifest_info t digest ds kind) ∷ rest))
                (some m)
              ≡ ok (some m'))
            × IsPushed repository id size kind (some m')
      unfolding stamp change
      typed ds rest m h mounted stored measured =
          let (m', e, p) =
            all_described seen repository digest kind id size clock 1 rest
              (record m { updated = clock 0; dependencies = some ds; content_type = some kind }) h
              (mounted, stored, measured, refl) in
          (m', rw (==_refl digest) e, p)

      abbrev tagging : RegistryAction
      tagging = hash_tagged (now 3) digest repository tag user

      -- tagging is no change to a blob or to a manifest
      tagged :
          (f : RegistryAction → Option (Digest × Change)) (d : Digest) (o : Option Artifact)
          (l : List RegistryAction)
          → f tagging ≡ none
          → evolve f d (l ++ (tagging ∷ [])) o ≡ evolve f d l o
      tagged f d o l p = elim (Outcome-cases (evolve f d l o)) [
        | inl e ↦ rw (evolve-append f d l (tagging ∷ []) o, e) refl
        | inr (o', e) ↦ rw (evolve-append f d l (tagging ∷ []) o, e) (rw p refl)
      ]

      module _ (ds : List Digest) (rest : List Unstamped)
          (h : AreDescriptions seen repository digest kind rest) where
        abbrev first_and : List Unstamped
        first_and = (λ t. manifest_info t digest ds kind) ∷ rest

        manifest_after :
            (o : Option Artifact)
            → (m : Artifact) × (evolve manifest_change digest
                  (put_actions id now user repository tag digest size (stamp clock 0 first_and))
                  o
                ≡ ok (some m))
              × IsPushed repository id size kind (some m)
        unfolding change
        manifest_after none =
            let (m, e, p) =
              typed ds rest
                (record {
                  created = now 0;
                  updated = now 2;
                  content_type = none;
                  size = some size;
                  dependencies = some [];
                  locations = Set.insert id [];
                  repositories = repository ∷ [];
                })
                h (ground (arith, ==_refl repository, contains-cons repository repository []))
                (ground (arith, ==_refl id, contains-insert id id [])) refl in
            (
              m,
              rw (==_refl digest)
                  (tagged manifest_change digest _ (stamp clock 0 first_and) refl ∙ e),
              p,
            )
        manifest_after (some b) =
            let (m, e, p) =
              typed ds rest
                (record b {
                  updated = now 2;
                  size = some size;
                  repositories = Set.insert repository b.repositories;
                  locations = Set.insert id b.locations;
                })
                h
                (ground
                  (arith, ==_refl repository, contains-insert repository repository b.repositories))
                (ground (arith, ==_refl id, contains-insert id id b.locations)) refl in
            (
              m,
              rw (==_refl digest)
                  (tagged manifest_change digest _ (stamp clock 0 first_and) refl ∙ e),
              p,
            )

      tag_after : (o : Option Digest) → retag key pushed_actions o ≡ some digest
      tag_after o = rw (retag-append key (stamp clock 0 acts) (tagging ∷ []) o, ==_refl key) refl

      blobs_after :
          AreDescriptions seen repository digest kind acts
          → (d : Digest) (o : Option Artifact)
          → (o' : Option Artifact) × (evolve blob_change d pushed_actions o ≡ ok o')
      blobs_after h d o =
          let (o', e) = blobs_total seen repository digest kind d clock 0 acts o h in
          (o', tagged blob_change d o (stamp clock 0 acts) refl ∙ e)

      others_after :
          AreDescriptions seen repository digest kind acts
          → (d : Digest) (o : Option Artifact) → ((digest == d) ≡ false)
          → evolve manifest_change d pushed_actions o ≡ ok o
      others_after h d o differ = rw differ (
          tagged manifest_change d o (stamp clock 0 acts) refl
          ∙ others_kept seen repository digest kind d clock 0 acts o h differ)

      pushed_after :
          AreDescriptions seen repository digest kind acts
          → StartsWithInfo digest kind acts
          → (o : Option Artifact)
          → (m : Artifact) × (evolve manifest_change digest pushed_actions o ≡ ok (some m))
            × IsPushed repository id size kind (some m)
      pushed_after h (ds, rest, p) o =
          subst
            (λ l.
              (m : Artifact) × (evolve manifest_change digest
                  (put_actions id now user repository tag digest size (stamp clock 0 l)) o
                ≡ ok (some m))
              × IsPushed repository id size kind (some m))
            (sym p)
            (manifest_after ds rest (subst (AreDescriptions seen repository digest kind) p h).1 o)

      never :
          AreDescriptions seen repository digest kind acts
          → StartsWithInfo digest kind acts
          → (db : Db) (d : Digest) → Panics pushed_actions db d
          → ⊥
      never h s db d (inl p) =
          let (o', e) = blobs_after h d (Map.lookup d db.blobs) in ground (arith, e, p)
      never h s db d (inr p) = elim (Bool-cases (digest == d)) [
        | inl same ↦
            let (m, e, q) = pushed_after h s (Map.lookup d db.manifests) in
            ground (arith, ==_eq digest d same, e, p)
        | inr differ ↦ ground (arith, others_after h d (Map.lookup d db.manifests) differ, p)
      ]

      -- The transaction of a push goes through on every database.
      pub apply_actions-pushed_actions :
          AreDescriptions seen repository digest kind acts
          → StartsWithInfo digest kind acts
          → (db : Db) → (db' : Db) × (apply_actions pushed_actions db ≡ ok db') × HasPushed db'
      apply_actions-pushed_actions h s db = elim (Outcome-cases (apply_actions pushed_actions db)) [
        | inl e ↦ let (d, p) = apply_actions-panic pushed_actions db e in absurd (never h s db d p)
        | inr (db', e) ↦
            let agrees = apply_actions-Agrees pushed_actions db e in
            let (m, p, pushed) = pushed_after h s (Map.lookup digest db.manifests) in
            (
              db',
              e,
              record {
                at_digest =
                    subst (IsPushed repository id size kind) {x = some m}
                      (ground (arith, p, agrees.at_manifest digest)) pushed;
                at_tag = agrees.at_tag key ∙ tag_after (Map.lookup key db.tags);
              },
            )
      ]
