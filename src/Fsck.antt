-- ===== src/Fsck.antt =====
-- `Action::Fsck` of src/bin/main.rs: the export of the cluster's database is compared with the files
-- of one node. The fixes are the actions of the transaction that `--repair` submits; `now` is what
-- the clock gives for each. The lines that are printed about a manifest are the reports. Which files
-- are there, what they read as, and the order in which a `HashSet` iterates are parameters.
pub mod Loops
pub mod Repair
pub mod Reports
use distribd.Prelude.{
  ℕ, String, Option, none, some, List, [], ◌∷◌, ◌++◌, Outcome, ok, panic, unwrap, ◌>>=◌,
  if◌then◌else◌, Bool, nat_eq,
}
use distribd.Prelude.Set
use distribd.Prelude.Map
use distribd.Types.{
  digest_eq, repository_eq, Digest, RepositoryName, Artifact, RegistryAction, blob_unstored,
  manifest_unstored,
}
use distribd.StateMachine.{Tree}
use distribd.Management.{Unstamped, ImportBody}
use distribd.Paths.{FilePath, get_blob_path, get_manifest_path}
use distribd.Extractor.{
  Manifest, ExtractError, Extraction, Analysis, done, failed, fits, parse_manifest,
}

pub data Report : Type 0 where
  not_all_available : (manifest : Digest) (repository : RepositoryName) → Report
  wrong_size blob_missing : (manifest blob : Digest) → Report
  not_valid : (manifest : Digest) → ExtractError → Report

abbrev pub fsck_user : String
fsck_user = "$fsck"

-- What a loop has pushed and printed, and its map after it.
pub record Checked : Type 0 where
  pub fixes : List Unstamped
  pub rows : Tree
  pub reports : List Report

abbrev pub nothing_checked : Checked
nothing_checked = record { fixes = []; rows = []; reports = [] }

abbrev pub both : Checked → Checked → Checked
both a b = record {
  fixes = a.fixes ++ b.fixes;
  rows = a.rows ++ b.rows;
  reports = a.reports ++ b.reports;
}

module _ (exists : FilePath → Bool) (id : ℕ) where
  -- The two loops, which differ in the path of a file, in the action that is pushed where it is not
  -- there, and in what is looked at where it is.
  module _ (path_of : Digest → Outcome FilePath)
      (unstored : ℕ → Digest → ℕ → String → RegistryAction)
      (look : Digest → FilePath → Artifact → Outcome (List Report)) where
    abbrev pub missing : Digest → Artifact → Checked
    missing digest artifact = record {
      fixes = (λ now. unstored now digest id fsck_user) ∷ [];
      rows = (digest, record artifact { locations = Set.remove id artifact.locations }) ∷ [];
      reports = [];
    }

    abbrev pub present : Digest → Artifact → List Report → Checked
    present digest artifact reports = record {
      fixes = [];
      rows = (digest, artifact) ∷ [];
      reports = reports;
    }

    -- one round
    unfoldable pub check_row : Digest → Artifact → Outcome Checked
    check_row digest artifact =
        if Set.contains artifact.locations id
        then (do
          path ← path_of digest
          if exists path
              then (do reports ← look digest path artifact; ok (present digest artifact reports))
              else ok (missing digest artifact))
        else ok (present digest artifact [])

    unfoldable pub check_rows : Tree → Outcome Checked
    unfolding check_row
    check_rows [] = ok nothing_checked
    check_rows ((digest, artifact) ∷ rows) = do
      row ← check_row digest artifact
      rest ← check_rows rows
      ok (both row rest)

-- `for repo in manifest.repositories.iter()`
unfoldable pub unavailable : Digest → List RepositoryName → Artifact → List Report
unavailable digest [] blob = []
unavailable digest (repository ∷ repositories) blob =
    let rest = unavailable digest repositories blob in
    if Set.contains blob.repositories repository
    then rest
    else not_all_available digest repository ∷ rest

unfoldable pub check_extraction : Digest → Artifact → Extraction → Option Artifact → List Report
unfolding unavailable
check_extraction digest manifest extraction none = blob_missing digest extraction.digest ∷ []
check_extraction digest manifest extraction (some blob) =
    unavailable digest manifest.repositories blob
    ++ (if fits extraction.size blob.size then [] else wrong_size digest extraction.digest ∷ [])

unfoldable pub check_extractions : Tree → Digest → Artifact → List Extraction → List Report
unfolding check_extraction
check_extractions blobs digest manifest [] = []
check_extractions blobs digest manifest (extraction ∷ extractions) =
    check_extraction digest manifest extraction (Map.lookup extraction.digest blobs)
    ++ check_extractions blobs digest manifest extractions

module _ (from_str : String → Option Manifest) (is_valid : String → String → Bool)
    (drain : List Extraction → List Extraction) (exists : FilePath → Bool)
    (read : FilePath → Option String) (root : String) (id : ℕ) where
  -- what is printed about a manifest of the type
  unfoldable pub report_manifest : Tree → Digest → FilePath → Artifact → String → List Report
  unfolding check_extractions parse_manifest
  report_manifest blobs digest path manifest content_type =
      elim (parse_manifest from_str is_valid (read path) content_type) [
        | failed error ↦ not_valid digest error ∷ []
        | done extractions ↦ check_extractions blobs digest manifest (drain extractions)
      ]

  unfoldable pub look_at_manifest : Tree → Digest → FilePath → Artifact → Outcome (List Report)
  unfolding report_manifest
  look_at_manifest blobs digest path manifest = do
    content_type ← unwrap manifest.content_type
    ok (report_manifest blobs digest path manifest content_type)

  abbrev pub check_blobs : Tree → Outcome Checked
  check_blobs = check_rows exists id (get_blob_path root) blob_unstored (λ digest path blob. ok [])

  abbrev pub check_manifests : Tree → Tree → Outcome Checked
  check_manifests blobs =
      check_rows exists id (get_manifest_path root) manifest_unstored (look_at_manifest blobs)

  unfoldable pub fsck : ImportBody → Outcome (List Unstamped × List Report)
  unfolding check_rows look_at_manifest get_blob_path get_manifest_path
  fsck body = do
    blobs ← check_blobs body.blobs
    manifests ← check_manifests blobs.rows body.manifests
    ok (blobs.fixes ++ manifests.fixes, manifests.reports)
