-- ===== src/Extractor/Allowed.antt =====
-- What a successful analysis says: only descriptions, and only of what the push may refer to.
use distribd.Prelude.{
  ℕ, suc, zero, String, ap, ◌++◌, Option, none, some, List, [], ◌∷◌, Bool, true, false, ◌||◌, ◌≡◌,
  refl, arith, subst, sym, inl, inr, Bool-cases, Option-cases, ◌==◌, ==_eq, string_eq, All,
  All-append,
}
use distribd.Prelude.Set
use distribd.Prelude.Set.{contains-insert, contains-nil, contains-extend}
use distribd.Prelude.Map
use distribd.Types.{
  digest_eq, repository_eq, Digest, RepositoryName, Artifact, RegistryAction, blob_info,
  manifest_info,
}
use distribd.StateMachine.{Db}
use distribd.Management.{Unstamped}
use distribd.Extractor.{
  extraction_eq, Manifest, Extraction, Walk, Analysis-cases, done, is_some, fits, analyzed, analyze,
  visit, visit_all, rounds, enough, extract, first_walk, extract_one, digests_of, validate, schemas,
}

-- What `HashSet`'s drain promises: the elements of the set.
abbrev pub Drains : (List Extraction → List Extraction) → Type 0
Drains drain = (s : List Extraction) (e : Extraction) → Set.contains (drain s) e ≡ Set.contains s e

-- The blob is there, and the repository has it or it was described before.
abbrev pub IsUsable : Db → RepositoryName → Digest → Type 0
IsUsable db r d =
    (blob : Artifact) × (Map.lookup d db.blobs ≡ some blob)
    × ((is_some blob.content_type || Set.contains blob.repositories r) ≡ true)

-- The blob is the repository's, and was not described before.
abbrev pub IsNew : Db → RepositoryName → Digest → Type 0
IsNew db r d =
    (blob : Artifact) × (Map.lookup d db.blobs ≡ some blob)
    × (Set.contains blob.repositories r ≡ true)
    × (blob.content_type ≡ none)

-- The action describes the pushed manifest with its type, or a new blob of the repository.
abbrev pub Describes : Db → RepositoryName → Digest → String → RegistryAction → Type 0
Describes db r digest kind (manifest_info t d ds c) = (d ≡ digest) × (c ≡ kind)
Describes db r digest kind (blob_info t d ds c) = IsNew db r d
Describes db r digest kind _ = ⊥

-- The first action describes the pushed manifest.
abbrev pub StartsWithInfo : Digest → String → List Unstamped → Type 0
StartsWithInfo digest kind acts =
    (ds : List Digest) × (rest : List Unstamped) × (acts
      ≡ (λ now. manifest_info now digest ds kind) ∷ rest)

module _ (from_str : String → Option Manifest) (is_valid : String → String → Bool)
    (read : Digest → Option String) (drain : List Extraction → List Extraction) (db : Db)
    (repository : RepositoryName) where
  -- the seen blobs are usable, and each action describes
  record IsSound (digest : Digest) (kind : String) (w : Walk) : Type 0 where
    seen : (d : Digest) → Set.contains w.seen d ≡ true → IsUsable db repository d
    starts : StartsWithInfo digest kind w.analysis
    analysis : All (λ act. (t : ℕ) → Describes db repository digest kind (act t)) w.analysis

  IsSound-analyzed :
      (digest : Digest) (kind : String) (e : Extraction) (deps : List Extraction) (w : Walk)
      → IsSound digest kind w
      → IsNew db repository e.digest
      → IsSound digest kind (analyzed from_str is_valid read drain db repository e deps w)
  IsSound-analyzed digest kind e deps w s new = record {
    seen = λ d h. elim (Bool-cases (e.digest == d)) [
      | inl same ↦
          let (blob, found, own, undescribed) = new in
          subst (IsUsable db repository) (==_eq e.digest d same) (blob, found, ground (arith, own))
      | inr differ ↦ s.seen d (ground (arith, contains-insert e.digest d w.seen))
    ];
    starts =
        let (ds, rest, p) = s.starts in
        (
          ds,
          rest ++ ((λ now. blob_info now e.digest (digests_of deps) e.content_type) ∷ []),
          ap
              (λ acts.
                acts ++ ((λ now. blob_info now e.digest (digests_of deps) e.content_type) ∷ []))
              p,
        );
    analysis = All-append _ w.analysis _ s.analysis ((λ t. new), tt);
  }

  no_element :
      (es : List Extraction) (e : Extraction) → Set.is_empty es ≡ true → Set.contains es e ≡ false
  unfolding Set.contains
  no_element [] e h = refl
  no_element (x ∷ es) e h = absurd (ground arith)

  is_none : {A : Type 0} (o : Option A) → is_some o ≡ false → o ≡ none
  is_none none h = refl
  is_none (some a) h = absurd (ground arith)

  analyze_with :
      (e : Extraction) (w w' : Walk)
      → analyze from_str is_valid read drain db repository e w ≡ done w'
      → (deps : List Extraction) × (w'
          ≡ analyzed from_str is_valid read drain db repository e deps w)
  analyze_with e w w' h = elim (Bool-cases (Set.contains schemas e.content_type)) [
    | inr opaque ↦ ([], ground arith)
    | inl known ↦ elim (Option-cases (read e.digest)) [
      | inl m ↦ absurd (ground arith)
      | inr (text, m) ↦ (extract_one from_str text, ground arith)
    ]
  ]

  module _ (digest : Digest) (kind : String) where
    visit-IsSound :
        (e : Extraction) (w w' : Walk)
        → visit from_str is_valid read drain db repository e w ≡ done w'
        → IsSound digest kind w
        → IsSound digest kind w' × IsUsable db repository e.digest
    unfolding visit
    visit-IsSound e w w' h s = elim (Bool-cases (Set.contains w.seen e.digest)) [
      | inl seen ↦ (subst (IsSound digest kind) {x = w} (ground arith) s, s.seen e.digest seen)
      | inr fresh ↦ elim (Option-cases (Map.lookup e.digest db.blobs)) [
        | inl m ↦ absurd (ground arith)
        | inr (blob, m) ↦ elim (Bool-cases (is_some blob.content_type)) [
          | inl old ↦
              (subst (IsSound digest kind) {x = w} (ground arith) s, (blob, m, ground arith))
          | inr new ↦ elim (Bool-cases (Set.contains blob.repositories repository)) [
            | inr foreign ↦ absurd (ground arith)
            | inl own ↦ elim (Bool-cases (fits e.size blob.size)) [
              | inr wrong ↦ absurd (ground arith)
              | inl right ↦
                  let (deps, p) = analyze_with e w w' (ground arith) in
                  (
                    subst (IsSound digest kind) (sym p) (
                        IsSound-analyzed digest kind e deps w s
                          (blob, m, own, is_none blob.content_type new)),
                    (blob, m, ground arith),
                  )
            ]
          ]
        ]
      ]
    ]

    -- the digests of the references are usable
    abbrev pub AreUsable : List Extraction → Type 0
    AreUsable es = (e : Extraction) → Set.contains es e ≡ true → IsUsable db repository e.digest

    visit_all-IsSound :
        (es : List Extraction) (w w' : Walk)
        → visit_all from_str is_valid read drain db repository es w ≡ done w'
        → IsSound digest kind w
        → IsSound digest kind w' × AreUsable es
    unfolding visit_all Set.contains
    visit_all-IsSound [] w w' h s =
        (subst (IsSound digest kind) {x = w} (ground arith) s, (λ e m. absurd (ground arith)))
    visit_all-IsSound (x ∷ es) w w' h s =
        elim (Analysis-cases (visit from_str is_valid read drain db repository x w)) [
          | inl (error, p) ↦ absurd (ground arith)
          | inr (w₁, p) ↦
              let (s₁, usable) = visit-IsSound x w w₁ p s in
              let (s', others) = visit_all-IsSound es w₁ w' (ground arith) s₁ in
              (
                s',
                (λ e m. elim (Bool-cases (x == e)) [
                  | inl same ↦ subst (λ y. IsUsable db repository y.digest) (==_eq x e same) usable
                  | inr differ ↦ others e (ground arith)
                ]),
              )
        ]

    rounds-IsSound :
        Drains drain
        → (fuel : ℕ) (w : Walk) (acts : List Unstamped)
        → rounds from_str is_valid read drain db repository fuel w ≡ some (done acts)
        → IsSound digest kind w
        → All (λ act. (t : ℕ) → Describes db repository digest kind (act t)) acts
          × StartsWithInfo digest kind acts
          × AreUsable w.pending
    unfolding rounds
    rounds-IsSound drains zero w acts h s = absurd (ground arith)
    rounds-IsSound drains (suc fuel) w acts h s = elim (Bool-cases (Set.is_empty w.pending)) [
      | inl idle ↦ (
        subst (All (λ act. (t : ℕ) → Describes db repository digest kind (act t))) {x = w.analysis}
            (ground arith) s.analysis,
        subst (StartsWithInfo digest kind) {x = w.analysis} (ground arith) s.starts,
        (λ e m. absurd (ground (arith, no_element w.pending e idle))),
      )
      | inr more ↦
          elim (Analysis-cases (
            visit_all from_str is_valid read drain db repository (drain w.pending)
              (record w { pending = [] }))) [
                | inl (error, p) ↦ absurd (ground arith)
                | inr (w', p) ↦
                    let (s', usable) =
                      visit_all-IsSound (drain w.pending) (record w { pending = [] }) w' p
                        (record { seen = s.seen; starts = s.starts; analysis = s.analysis }) in
                    let (described, starts, rest) =
                      rounds-IsSound drains fuel w' acts (ground arith) s' in
                    (described, starts, (λ e m. usable e (ground (arith, drains w.pending e))))
              ]
    ]

    -- An analysis that succeeds describes the pushed manifest with its type, and blobs of the
    -- repository that were not described before, and nothing else, the manifest first. Every blob that the manifest refers
    -- to exists, and belongs to the repository or was described before.
    pub extract-Describes :
        Drains drain
        → (text : String) (acts : List Unstamped)
        → extract from_str is_valid read drain db repository digest kind (some text)
          ≡ some (done acts)
        → All (λ act. (t : ℕ) → Describes db repository digest kind (act t)) acts
          × StartsWithInfo digest kind acts
          × AreUsable (extract_one from_str text)
    unfolding extract
    extract-Describes drains text acts h = elim (Bool-cases (validate is_valid kind text)) [
      | inr bad ↦ absurd (ground arith)
      | inl good ↦
          let deps = extract_one from_str text in
          let (described, starts, usable) =
            rounds-IsSound drains (enough from_str is_valid read drain db repository)
              (first_walk from_str is_valid read drain db repository digest kind deps) acts
              (ground arith)
              (record {
                seen = λ d m. absurd (ground (arith, contains-nil d));
                starts = (digests_of deps, [], refl);
                analysis = ((λ t. (refl, refl)), tt);
              }) in
          (described, starts, (λ e m. usable e (ground (arith, contains-extend deps [] e))))
    ]
