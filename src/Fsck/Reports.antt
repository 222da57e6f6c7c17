-- ===== src/Fsck/Reports.antt =====
-- What a check that prints nothing about a manifest has found.
use distribd.Prelude.{
  ℕ, String, Option, some, List, [], ◌∷◌, ◌++◌, Outcome, ok, if◌then◌else◌, Bool, true, ◌==◌, ==_eq,
  nat_eq, ◌≡◌, refl, subst, ◌∙◌, arith, inl, inr, Bool-cases, Outcome-cases, Option-cases, All,
  All-mono,
}
use distribd.Prelude.Set
use distribd.Prelude.Map
use distribd.Types.{
  digest_eq, repository_eq, Digest, RepositoryName, Artifact, RegistryAction, blob_unstored,
  manifest_unstored,
}
use distribd.StateMachine.{Tree}
use distribd.Management.{Unstamped, ImportBody}
use distribd.Paths.{FilePath, get_blob_path, get_manifest_path}
use distribd.Extractor.{Manifest, Extraction, done, Analysis-cases, fits, parse_manifest}
use distribd.Fsck.{
  Report, wrong_size, Checked, check_row, check_rows, unavailable, check_extraction,
  check_extractions, report_manifest, look_at_manifest, check_blobs, check_manifests, fsck,
}

both_nil {ℓ} : {A : Type ℓ} (xs ys : List A) → xs ++ ys ≡ [] → (xs ≡ []) × (ys ≡ [])
both_nil [] ys h = (refl, h)
both_nil (x ∷ xs) ys h = absurd (ground (arith, h))

module _ (exists : FilePath → Bool) (id : ℕ) (path_of : Digest → Outcome FilePath)
    (unstored : ℕ → Digest → ℕ → String → RegistryAction)
    (look : Digest → FilePath → Artifact → Outcome (List Report)) where
  record Cons (d : Digest) (a : Artifact) (rows : Tree) (checked : Checked) : Type 0 where
    pub row : Checked
    pub rest : Checked
    pub first : check_row exists id path_of unstored look d a ≡ ok row
    pub others : check_rows exists id path_of unstored look rows ≡ ok rest
    pub reports : row.reports ++ rest.reports ≡ checked.reports
    pub rows_after : row.rows ++ rest.rows ≡ checked.rows

  cons :
      (d : Digest) (a : Artifact) (rows : Tree) {checked : Checked}
      → check_rows exists id path_of unstored look ((d, a) ∷ rows) ≡ ok checked
      → Cons d a rows checked
  unfolding check_rows
  cons d a rows h = elim (Outcome-cases (check_row exists id path_of unstored look d a)) [
    | inl e ↦ absurd (ground arith)
    | inr (row, e) ↦ elim (Outcome-cases (check_rows exists id path_of unstored look rows)) [
      | inl e' ↦ absurd (ground arith)
      | inr (rest, e') ↦ record {
        row = row;
        rest = rest;
        first = e;
        others = e';
        reports = ground arith;
        rows_after = ground arith;
      }
    ]
  ]

  -- the entry is as it was, but for its locations
  pub record IsKept (a b : Artifact) : Type 0 where
    pub size : b.size ≡ a.size
    pub repositories : b.repositories ≡ a.repositories

  row-IsKept :
      (d : Digest) (a : Artifact) {row : Checked}
      → check_row exists id path_of unstored look d a ≡ ok row
      → (b : Artifact) × (row.rows ≡ (d, b) ∷ []) × IsKept a b
  unfolding check_row
  row-IsKept d a h = elim (Bool-cases (Set.contains a.locations id)) [
    | inr other ↦ (a, ground (arith, other), record { size = refl; repositories = refl })
    | inl here ↦ elim (Outcome-cases (path_of d)) [
      | inl e ↦ absurd (ground (arith, here, e))
      | inr (path, e) ↦ elim (Bool-cases (exists path)) [
        | inr lost ↦ (
          record a { locations = Set.remove id a.locations },
          ground (arith, here, e, lost),
          record { size = refl; repositories = refl },
        )
        | inl file ↦ elim (Outcome-cases (look d path a)) [
          | inl e' ↦ absurd (ground (arith, here, e, file, e'))
          | inr (reports, e') ↦
              (a, ground (arith, here, e, file, e'), record { size = refl; repositories = refl })
        ]
      ]
    ]
  ]

  rows-IsKept :
      (rows : Tree) (d : Digest) (b : Artifact) {checked : Checked}
      → check_rows exists id path_of unstored look rows ≡ ok checked
      → Map.lookup d checked.rows ≡ some b
      → (a : Artifact) × (Map.lookup d rows ≡ some a) × IsKept a b
  unfolding check_rows Map.lookup
  rows-IsKept [] d b h found = absurd (ground (arith, h, found))
  rows-IsKept ((d', a) ∷ rows) d b {checked} h found =
      let c = cons d' a rows {checked = checked} h in
      let (b', p, kept) = row-IsKept d' a c.first in
      elim (Bool-cases (d' == d)) [
        | inl same ↦ (
          a,
          ground (arith, same),
          subst (IsKept a) (ground (arith, p, found, same, c.rows_after)) kept,
        )
        | inr differ ↦
            let (a', q, kept') =
              rows-IsKept rows d b c.others (ground (arith, p, found, differ, c.rows_after)) in
            (a', ground (arith, q, differ), kept')
      ]

  row-silent :
      (d : Digest) (a : Artifact) (path : FilePath) {row : Checked}
      → check_row exists id path_of unstored look d a ≡ ok row
      → row.reports ≡ []
      → Set.contains a.locations id ≡ true
      → path_of d ≡ ok path
      → exists path ≡ true
      → look d path a ≡ ok []
  unfolding check_row
  row-silent d a path h silent here at file = elim (Outcome-cases (look d path a)) [
    | inl e ↦ absurd (ground (arith, h, here, at, file, e))
    | inr (reports, e) ↦ e ∙ ground (arith, h, here, at, file, e, silent)
  ]

  -- Where nothing was printed, nothing was printed about any row.
  rows-silent :
      (rows : Tree) (d : Digest) (a : Artifact) (path : FilePath) {checked : Checked}
      → check_rows exists id path_of unstored look rows ≡ ok checked
      → checked.reports ≡ []
      → Map.lookup d rows ≡ some a
      → Set.contains a.locations id ≡ true
      → path_of d ≡ ok path
      → exists path ≡ true
      → look d path a ≡ ok []
  unfolding check_rows check_row Map.lookup
  rows-silent [] d a path h silent found here at file = absurd (ground (arith, found))
  rows-silent ((d', a') ∷ rows) d a path {checked} h silent found here at file =
      let c = cons d' a' rows {checked = checked} h in
      let (none_first, none_later) = both_nil c.row.reports c.rest.reports (c.reports ∙ silent) in
      elim (Bool-cases (d' == d)) [
        | inr differ ↦
            rows-silent rows d a path c.others none_later (ground (arith, differ, found)) here at
              file
        | inl same ↦
            row-silent d a path
              (subst (λ x. check_row exists id path_of unstored look d x ≡ ok c.row)
                (ground (arith, same, found))
                (subst (λ x. check_row exists id path_of unstored look x a' ≡ ok c.row)
                  (==_eq d' d same) c.first))
              none_first here at file
      ]

-- Every repository of the manifest has the blob, and its size is the one that the manifest says.
pub record IsAvailable (blobs : Tree) (manifest : Artifact) (e : Extraction) : Type 0 where
  pub blob : Artifact
  pub found : Map.lookup e.digest blobs ≡ some blob
  pub repositories : All (λ r. Set.contains blob.repositories r ≡ true) manifest.repositories
  pub size : fits e.size blob.size ≡ true

unavailable-nil :
    (d : Digest) (rs : List RepositoryName) (blob : Artifact)
    → unavailable d rs blob ≡ []
    → All (λ r. Set.contains blob.repositories r ≡ true) rs
unfolding unavailable
unavailable-nil d [] blob h = tt
unavailable-nil d (r ∷ rs) blob h = elim (Bool-cases (Set.contains blob.repositories r)) [
  | inl has ↦ (has, unavailable-nil d rs blob (ground (arith, has, h)))
  | inr lacks ↦ absurd (ground (arith, lacks, h))
]

available :
    (blobs : Tree) (d : Digest) (m : Artifact) (e : Extraction)
    → check_extraction d m e (Map.lookup e.digest blobs) ≡ []
    → IsAvailable blobs m e
unfolding check_extraction
available blobs d m e h = elim (Option-cases (Map.lookup e.digest blobs)) [
  | inl missing ↦ absurd (ground (arith, missing, h))
  | inr (blob, found) ↦
      let (all_have, fit) =
        both_nil (unavailable d m.repositories blob)
          (if fits e.size blob.size then [] else wrong_size d e.digest ∷ [])
          (ground (arith, found, h)) in
      record {
        blob = blob;
        found = found;
        repositories = unavailable-nil d m.repositories blob all_have;
        size = ground (arith, fit);
      }
]

all_available :
    (blobs : Tree) (d : Digest) (m : Artifact) (es : List Extraction)
    → check_extractions blobs d m es ≡ []
    → All (IsAvailable blobs m) es
unfolding check_extractions
all_available blobs d m [] h = tt
all_available blobs d m (e ∷ es) h =
    let (p, q) =
      both_nil (check_extraction d m e (Map.lookup e.digest blobs)) (check_extractions blobs d m es)
        h in
    (available blobs d m e p, all_available blobs d m es q)

module _ (from_str : String → Option Manifest) (is_valid : String → String → Bool)
    (drain : List Extraction → List Extraction) (exists : FilePath → Bool)
    (read : FilePath → Option String) (root : String) (id : ℕ) where
  -- The manifest's file parses as its type, and what it refers to is available.
  pub record IsSound (body : ImportBody) (m : Artifact) (path : FilePath) : Type 0 where
    pub content_type : String
    pub extractions : List Extraction
    pub typed : m.content_type ≡ some content_type
    pub parsed : parse_manifest from_str is_valid (read path) content_type ≡ done extractions
    pub references : All (IsAvailable body.blobs m) (drain extractions)

  sound :
      (body : ImportBody) (blobs : Checked) (d : Digest) (m : Artifact) (path : FilePath)
      → check_blobs from_str is_valid drain exists read root id body.blobs ≡ ok blobs
      → look_at_manifest from_str is_valid drain exists read root id blobs.rows d path m ≡ ok []
      → IsSound body m path
  unfolding look_at_manifest report_manifest
  sound body blobs d m path h seen = elim (Option-cases m.content_type) [
    | inl untyped ↦ absurd (ground (arith, untyped, seen))
    | inr (content_type, typed) ↦
        elim (Analysis-cases (parse_manifest from_str is_valid (read path) content_type)) [
          | inl (error, e) ↦ absurd (ground (arith, typed, e, seen))
          | inr (extractions, e) ↦ record {
            content_type = content_type;
            extractions = extractions;
            typed = typed;
            parsed = e;
            references =
                All-mono (IsAvailable blobs.rows m) (IsAvailable body.blobs m) (drain extractions)
                  before
                  (all_available blobs.rows d m (drain extractions)
                    (ground (arith, typed, e, seen)));
          }
        ]
  ]
    where
      before : (e : Extraction) → IsAvailable blobs.rows m e → IsAvailable body.blobs m e
      before e k =
          let (a, found, kept) =
            rows-IsKept exists id (get_blob_path root) blob_unstored (λ d path a. ok []) body.blobs
              e.digest k.blob h k.found in
          record {
            blob = a;
            found = found;
            repositories =
                subst (λ rs. All (λ r. Set.contains rs r ≡ true) m.repositories) kept.repositories
                  k.repositories;
            size = subst (λ n. fits e.size n ≡ true) kept.size k.size;
          }

  -- Where a check prints nothing about the manifests, each manifest that is on the node with its file
  -- has a type as which the file parses, and each blob that it refers to is known, has the size that
  -- the manifest says, if it says one, and is in every repository of the manifest.
  pub fsck-IsSound :
      (body : ImportBody) (fixes : List Unstamped) (d : Digest) (m : Artifact) (path : FilePath)
      → fsck from_str is_valid drain exists read root id body ≡ ok (fixes, [])
      → Map.lookup d body.manifests ≡ some m
      → Set.contains m.locations id ≡ true
      → get_manifest_path root d ≡ ok path
      → exists path ≡ true
      → IsSound body m path
  unfolding fsck
  fsck-IsSound body fixes d m path h found here at file =
      elim (Outcome-cases (check_blobs from_str is_valid drain exists read root id body.blobs)) [
        | inl e ↦ absurd (ground (arith, h, e))
        | inr (blobs, e) ↦
            elim (Outcome-cases (
              check_manifests from_str is_valid drain exists read root id blobs.rows
                body.manifests)) [
                  | inl e' ↦ absurd (ground (arith, h, e, e'))
                  | inr (manifests, e') ↦ sound body blobs d m path e (
                      rows-silent exists id (get_manifest_path root) manifest_unstored
                        (look_at_manifest from_str is_valid drain exists read root id blobs.rows)
                        body.manifests d m path e' (ground (arith, h, e, e')) found here at file)
                ]
      ]
