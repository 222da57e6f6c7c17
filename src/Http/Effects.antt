-- ===== src/Http/Effects.antt =====
-- What the writes of the handlers do to the database when they are applied.
use distribd.Prelude.{
  ℕ, String, Option, none, some, [], ◌∷◌, ok, true, false, ◌≡◌, refl, arith, subst, ==_eq, inl, inr,
  Bool-cases, Outcome-cases, ◌==◌, ==_refl, nat_eq,
}
use distribd.Prelude.Set
use distribd.Prelude.Set.{contains-insert, contains-remove, contains-cons, contains-nil}
use distribd.Prelude.Map
use distribd.Prelude.Map.{lookup-insert}
use distribd.Types.{digest_eq, repository_eq, tag_key_eq, Digest, RepositoryName, Artifact}
use distribd.StateMachine.{Db, apply_actions}
use distribd.StateMachine.Artifacts.{change, blob_change}
use distribd.StateMachine.Refinement.{evolve, apply_actions-Agrees, apply_actions-panic, Panics}
use distribd.Http.Uploads.{stored_actions}

-- The object is in the repository, on the node, and of the size.
abbrev pub IsStoredAs : RepositoryName → ℕ → ℕ → Option Artifact → Type 0
IsStoredAs repository id size none = ⊥
IsStoredAs repository id size (some a) =
    (Set.contains a.repositories repository ≡ true)
    × (Set.contains a.locations id ≡ true)
    × (a.size ≡ some size)

module _ (id : ℕ) (now : ℕ → ℕ) (user : String) (repository : RepositoryName) (digest : Digest)
    (size : ℕ) where
  blob_after :
      (o : Option Artifact)
      → (a : Artifact) × (evolve blob_change digest
            (stored_actions id now user repository digest size)
            o
          ≡ ok (some a))
        × IsStoredAs repository id size (some a)
  unfolding change
  blob_after none = (
    record {
      created = now 0;
      updated = now 2;
      content_type = none;
      size = some size;
      dependencies = some [];
      locations = Set.insert id [];
      repositories = repository ∷ [];
    },
    rw (==_refl digest) refl,
    (
      ground (arith, ==_refl repository, contains-cons repository repository []),
      ground (arith, ==_refl id, contains-insert id id []),
      refl,
    ),
  )
  blob_after (some b) = (
    record b {
      updated = now 2;
      size = some size;
      repositories = Set.insert repository b.repositories;
      locations = Set.insert id b.locations;
    },
    rw (==_refl digest) refl,
    (
      ground (arith, ==_refl repository, contains-insert repository repository b.repositories),
      ground (arith, ==_refl id, contains-insert id id b.locations),
      refl,
    ),
  )

  -- another digest, or a manifest, is not touched
  others_after :
      (d : Digest) (o : Option Artifact)
      → ((digest == d) ≡ false)
      → evolve blob_change d (stored_actions id now user repository digest size) o ≡ ok o
  others_after d o differ = rw differ refl

  -- The transaction of a finished upload goes through on every database, and the blob is then in the
  -- repository, on the node that it was uploaded to, and of the uploaded size.
  pub apply_actions-stored_actions :
      (db : Db)
      → (db' : Db) × (apply_actions (stored_actions id now user repository digest size) db ≡ ok db')
        × IsStoredAs repository id size (Map.lookup digest db'.blobs)
  apply_actions-stored_actions db =
      elim (Outcome-cases (apply_actions (stored_actions id now user repository digest size) db)) [
        | inl e ↦
            let (d, p) =
              apply_actions-panic (stored_actions id now user repository digest size) db e in
            absurd (never d p)
        | inr (db', e) ↦
            let agrees =
              apply_actions-Agrees (stored_actions id now user repository digest size) db e in
            let (a, p, stored) = blob_after (Map.lookup digest db.blobs) in
            (
              db',
              e,
              subst (IsStoredAs repository id size) {x = some a}
                  (ground (arith, p, agrees.at_blob digest)) stored,
            )
      ]
    where
      never : (d : Digest) → Panics (stored_actions id now user repository digest size) db d → ⊥
      never d p = elim (Bool-cases (digest == d)) [
        | inl same ↦
            let (a, q, stored) = blob_after (Map.lookup digest db.blobs) in
            ground (arith, ==_eq digest d same, q, p)
        | inr differ ↦ ground (arith, others_after d (Map.lookup d db.blobs) differ, p)
      ]
