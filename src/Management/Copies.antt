-- ===== src/Management/Copies.antt =====
-- What the actions of one import do to the artifact of one digest.
use distribd.Prelude.{
  ℕ, Option, none, some, [], ◌∷◌, ok, ◌≡◌, refl, arith, sym, subst, inl, inr, Bool-cases, All,
  All-append, ◌==◌, ==_eq, false, nat_eq, string_eq,
}
use distribd.Prelude.Set
use distribd.Prelude.Set.{contains-extend, contains-nil}
use distribd.Prelude.Map
use distribd.Prelude.Map.{Map, HasUniqueKeys, AllRows, or_else, lookup-nil}
use distribd.Types.{
  digest_eq, repository_eq, tag_key_eq, Digest, RepositoryName, Artifact, RegistryAction,
}
use distribd.StateMachine.{Tree}
use distribd.StateMachine.Artifacts.{Change}
use distribd.StateMachine.Refinement.{evolve}
use distribd.StateMachine.Batches.{evolve-append}
use distribd.Management.{Kind, stamp, import_artifact, import_artifacts}
use distribd.Management.Stamps.{
  stamp-append, Ignores, evolve-Ignores, Reads, import_artifact-Ignores, AreDescribed,
  evolve-import_artifact,
}

-- The artifact has at least one repository, and its description is one that `info` leaves behind.
abbrev pub IsImportable : Digest → Artifact → Type 0
IsImportable d a =
    (Set.is_empty a.repositories ≡ false) × AreDescribed a.dependencies a.content_type

-- The same artifact, but for the order of its sets and for its times: it counts as created at a
-- reading of the import's clock, and when it was updated is left open.
pub record IsCopy (clock : ℕ → ℕ) (a b : Artifact) : Type 0 where
  pub created : (i : ℕ) × (b.created ≡ clock i)
  pub size : b.size ≡ a.size
  pub content_type : b.content_type ≡ a.content_type
  pub dependencies : b.dependencies ≡ a.dependencies
  pub repositories :
      (r : RepositoryName) → Set.contains b.repositories r ≡ Set.contains a.repositories r
  pub locations : (l : ℕ) → Set.contains b.locations l ≡ Set.contains a.locations l

abbrev pub AreCopies : (ℕ → ℕ) → Option Artifact → Option Artifact → Type 0
AreCopies clock none none = Unit
AreCopies clock (some a) (some b) = IsCopy clock a b
AreCopies clock _ _ = ⊥

module _ (f : RegistryAction → Option (Digest × Change)) (kind : Kind) (reads : Reads f kind)
    (d : Digest) (clock : ℕ → ℕ) where
  absent-Ignores :
      (rows : Tree) → Map.lookup d rows ≡ none → All (Ignores f d) (import_artifacts kind rows)
  unfolding import_artifacts Map.lookup
  absent-Ignores [] h = tt
  absent-Ignores ((d', a) ∷ rows) h = elim (Bool-cases (d' == d)) [
    | inl same ↦ absurd (ground arith)
    | inr differ ↦
        All-append (Ignores f d) _ _ (import_artifact-Ignores f kind reads d d' differ a)
          (absent-Ignores rows (ground arith))
  ]

  -- the body of the loop for the digest, from an entry that is not there
  evolve-own :
      (a : Artifact) (k : ℕ)
      → IsImportable d a
      → (b : Artifact) × (evolve f d (stamp clock k (import_artifact kind d a)) none ≡ ok (some b))
        × IsCopy clock a b
  evolve-own a k h =
      let (i, t, rs, done, same) = evolve-import_artifact f kind reads d clock a k h.0 h.1 in
      (
        _,
        done,
        record {
          created = (i, refl);
          size = refl;
          content_type = refl;
          dependencies = refl;
          repositories = same;
          locations = λ l. ground (arith, contains-extend a.locations [] l, contains-nil l);
        },
      )

  pub evolve-rows :
      (rows : Tree) (k : ℕ)
      → HasUniqueKeys rows
      → AllRows IsImportable rows
      → (o : Option Artifact) × (evolve f d (stamp clock k (import_artifacts kind rows)) none
          ≡ ok o)
        × AreCopies clock (Map.lookup d rows) o
  unfolding import_artifacts Map.lookup stamp
  evolve-rows [] k u h = (none, refl, tt)
  evolve-rows ((d', a) ∷ rows) k u h =
      let (j, split) =
        stamp-append clock k (import_artifact kind d' a) (import_artifacts kind rows) in
      elim (Bool-cases (d' == d)) [
        | inr differ ↦
            let (o, e, copies) = evolve-rows rows j u.1 h.1 in
            (
              o,
              rw
                  (
                    split,
                    evolve-append f d (stamp clock k (import_artifact kind d' a))
                        (stamp clock j (import_artifacts kind rows)),
                    evolve-Ignores f d clock k _ none
                        (import_artifact-Ignores f kind reads d d' differ a),
                  )
                  e,
              rw differ copies,
            )
        | inl same ↦
            let (b, e, copy) = evolve-own a k h.0 in
            (
              some b,
              rw
                  (
                    split,
                    evolve-append f d (stamp clock k (import_artifact kind d' a))
                        (stamp clock j (import_artifacts kind rows)),
                    subst
                        (λ x.
                          evolve f d (stamp clock k (import_artifact kind x a)) none ≡ ok (some b))
                        (sym (==_eq d' d same)) e,
                  )
                  (evolve-Ignores f d clock j _ (some b) (
                    absent-Ignores rows
                      (subst (λ x. Map.lookup x rows ≡ none) (==_eq d' d same) u.0))),
              rw same copy,
            )
      ]
