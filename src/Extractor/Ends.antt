-- ===== src/Extractor/Ends.antt =====
-- The loop of `extract` ends: each round but the last sees a blob of the database that was not seen.
use distribd.Prelude.{
  ℕ, suc, zero, ◌+◌, ◌<◌, String, Option, none, some, List, [], ◌∷◌, Bool, true, ◌≡◌, refl, arith,
  ◌⊎◌, inl, inr, length, Bool-cases, Option-cases,
}
use distribd.Prelude.Set
use distribd.Prelude.Set.{contains-insert}
use distribd.Prelude.Map
use distribd.Types.{digest_eq, repository_eq, Digest, RepositoryName, Artifact}
use distribd.StateMachine.{Tree, Db}
use distribd.Orphans.Reach.{missing, missing-lt, missing-nil}
use distribd.Management.{Unstamped}
use distribd.Extractor.{
  Manifest, Extraction, Walk, unknown_error, schema_validation_error, Analysis, Analysis-cases,
  done, failed, is_some, fits, analyze, visit, visit_all, rounds, enough, extract, first_walk,
  extract_one, validate,
}

keys : Tree → List Digest
keys [] = []
keys ((d, a) ∷ tree) = d ∷ keys tree

keys_found :
    (tree : Tree) (d : Digest) {a : Artifact}
    → Map.lookup d tree ≡ some a
    → Set.contains (keys tree) d ≡ true
unfolding keys Map.lookup Set.contains
keys_found [] d h = absurd (ground arith)
keys_found ((k, b) ∷ tree) d {a} h = ground (arith, keys_found tree d {a = a})

length-keys : (tree : Tree) → length (keys tree) ≡ length tree
unfolding keys
length-keys [] = refl
length-keys ((d, a) ∷ tree) = omega (arith, length-keys tree)

module _ (from_str : String → Option Manifest) (is_valid : String → String → Bool)
    (read : Digest → Option String) (drain : List Extraction → List Extraction) (db : Db)
    (repository : RepositoryName) where
  analyze_sees :
      (e : Extraction) (w w' : Walk)
      → analyze from_str is_valid read drain db repository e w ≡ done w'
      → w'.seen ≡ Set.insert e.digest w.seen
  analyze_sees e w w' h = ground arith

  -- the blobs that the walk has not seen
  abbrev left : Walk → ℕ
  left w = missing (keys db.blobs) w.seen

  -- nothing happened, or one blob fewer is left
  abbrev Moves : Walk → Walk → Type 0
  Moves w w' = ((w'.pending ≡ w.pending) × (left w' ≡ left w)) ⊎ (left w' < left w)

  visit-Moves :
      (e : Extraction) (w w' : Walk)
      → visit from_str is_valid read drain db repository e w ≡ done w'
      → Moves w w'
  unfolding visit
  visit-Moves e w w' h = elim (Bool-cases (Set.contains w.seen e.digest)) [
    | inl seen ↦ inl (ground arith)
    | inr fresh ↦ elim (Option-cases (Map.lookup e.digest db.blobs)) [
      | inl m ↦ absurd (ground arith)
      | inr (blob, m) ↦ elim (Bool-cases (is_some blob.content_type)) [
        | inl old ↦ inl (ground arith)
        | inr new ↦ elim (Bool-cases (Set.contains blob.repositories repository)) [
          | inr foreign ↦ absurd (ground arith)
          | inl own ↦ elim (Bool-cases (fits e.size blob.size)) [
            | inr wrong ↦ absurd (ground arith)
            | inl right ↦
                let sees = analyze_sees e w w' (ground arith) in
                inr (
                  rw sees (
                    missing-lt (keys db.blobs) w.seen e.digest (keys_found db.blobs e.digest m)
                      fresh))
          ]
        ]
      ]
    ]
  ]

  visit_all-Moves :
      (es : List Extraction) (w w' : Walk)
      → visit_all from_str is_valid read drain db repository es w ≡ done w'
      → Moves w w'
  unfolding visit_all
  visit_all-Moves [] w w' h = inl (ground arith)
  visit_all-Moves (e ∷ es) w w' h =
      elim (Analysis-cases (visit from_str is_valid read drain db repository e w)) [
        | inl (error, p) ↦ absurd (ground arith)
        | inr (w₁, p) ↦
            ground (arith, visit-Moves e w w₁ p, visit_all-Moves es w₁ w' (ground arith))
      ]

  rounds-idle :
      (fuel : ℕ) (w : Walk)
      → 0 < fuel
      → w.pending ≡ []
      → rounds from_str is_valid read drain db repository fuel w ≡ some (done w.analysis)
  unfolding rounds
  rounds-idle zero w h e = absurd (omega arith)
  rounds-idle (suc fuel) w h e = rw e refl

  rounds-ends :
      (fuel : ℕ) (w : Walk)
      → left w + 1 < fuel
      → (result : Analysis (List Unstamped)) × (rounds from_str is_valid read drain db repository
            fuel w
          ≡ some result)
  unfolding rounds
  rounds-ends zero w h = absurd (omega arith)
  rounds-ends (suc fuel) w h = elim (Bool-cases (Set.is_empty w.pending)) [
    | inl e ↦ (done w.analysis, rw (e, rounds) refl)
    | inr more ↦
        elim (Analysis-cases (
          visit_all from_str is_valid read drain db repository (drain w.pending)
            (record w { pending = [] }))) [
              | inl (error, p) ↦ (failed error, rw (more, p, rounds) refl)
              | inr (w', p) ↦
                  elim (visit_all-Moves (drain w.pending) (record w { pending = [] }) w' p) [
                    | inl (idle, same) ↦ (
                      done w'.analysis,
                      rw (more, p, rounds) (rounds-idle fuel w' (omega arith) idle),
                    )
                    | inr fewer ↦
                        let (result, q) = rounds-ends fuel w' (omega arith) in
                        (result, rw (more, p, rounds) q)
                  ]
            ]
  ]

  -- The analysis of a pushed manifest always comes to a result, whatever the texts refer to and in
  -- whatever order the set of references drains.
  pub extract-ends :
      (digest : Digest) (content_type : String) (file : Option String)
      → (result : Analysis (List Unstamped)) × (extract from_str is_valid read drain db repository
            digest content_type file
          ≡ some result)
  unfolding extract
  extract-ends digest content_type none = (failed unknown_error, refl)
  extract-ends digest content_type (some text) =
      elim (Bool-cases (validate is_valid content_type text)) [
        | inr bad ↦ (failed schema_validation_error, rw bad refl)
        | inl good ↦
            let (result, e) =
              rounds-ends (enough from_str is_valid read drain db repository)
                (first_walk from_str is_valid read drain db repository digest content_type
                  (extract_one from_str text))
                (omega (arith, missing-nil (keys db.blobs), length-keys db.blobs)) in
            (result, rw good e)
      ]
