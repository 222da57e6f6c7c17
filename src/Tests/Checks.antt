-- ===== src/Tests/Checks.antt =====
-- The paths of files, the number of a node, the rows of the store, and `fsck`.
use Prim.Native.String
use distribd.Prelude.{
  ℕ, ◌^◌, String, Option, none, some, List, [], ◌∷◌, ok, Bool, true, false, ◌==◌, ==_eq,
  if◌then◌else◌, ltb, nat_eq, ◌≡◌, refl, subst, arith, inl, inr, Bool-cases, str_dec,
}
use distribd.Prelude.Set
use distribd.Prelude.Map
use distribd.Types.{digest_eq, Digest-discrete, Artifact}
use distribd.Raft.{LogId, StoredMembership, Vote}
use distribd.StateMachine.{Db, apply_actions}
use distribd.StateMachine.Keys.{IsKeyed}
use distribd.Snapshot.{SnapshotMeta, RegistrySnapshot}
use distribd.Management.{Unstamped, ImportBody, stamp, export}
use distribd.Extractor.{Manifest, distribution_manifest_v1, Extraction, references, parse_manifest}
use distribd.Paths.{FilePath, split_at, object_path, get_blob_path, get_manifest_path}
use distribd.Paths.Apart.{IsHash, AreApart, objects-AreApart}
use distribd.Config.{id, is_node, failed, not_a_number}
use distribd.Config.Ids.{id-value}
use distribd.Settings.Fields.{Codecs, AreLossless, AreFields, sets-AreFields}
use distribd.Fsck.{
  Report, check_row, check_rows, check_extractions, report_manifest, look_at_manifest, fsck,
}
use distribd.Fsck.Repair.{IsReadable, IsRepaired, fsck-IsRepaired}
use distribd.Fsck.Reports.{IsSound, fsck-IsSound}
use distribd.Tests.{layer, other, with_layer, mounted_layer}
use native.Mathlib.Decide.{ℕ_discrete}

layer_IsHash : IsHash layer.hash
layer_IsHash = record {
  hex = (refl, (refl, (refl, (refl, (refl, (refl, (refl, (refl, tt))))))));
  long = omega arith;
}

other_IsHash : IsHash other.hash
other_IsHash = record {
  hex = (refl, (refl, (refl, (refl, (refl, (refl, (refl, (refl, tt))))))));
  long = omega arith;
}

objects-AreApart_example : AreApart "var" layer other
objects-AreApart_example = objects-AreApart "var" layer other layer_IsHash other_IsHash

id-value_example :
    id (String.◌++◌ "localhost" (String.◌++◌ "-" "7"))
    ≡ (if ltb 8 (2 ^ 64) then is_node 8 else if 8 == 2 ^ 64 then is_node 0 else failed not_a_number)
id-value_example = id-value "localhost" "7" "" (refl, tt)

-- a row as the value that it stands for
data Row : Type 0 where
  log_id : LogId → Row
  index : ℕ → Row
  vote : Vote → Row
  members : StoredMembership → Row
  snapshot : SnapshotMeta → Row → Row

abbrev read_log_id : Row → Option LogId
read_log_id (log_id a) = some a
read_log_id _ = none

abbrev read_index : Row → Option ℕ
read_index (index a) = some a
read_index _ = none

abbrev read_vote : Row → Option Vote
read_vote (vote a) = some a
read_vote _ = none

abbrev read_members : Row → Option StoredMembership
read_members (members a) = some a
read_members _ = none

abbrev read_snapshot : Row → Option (RegistrySnapshot Row)
read_snapshot (snapshot meta content) = some (record { meta = meta; content = content })
read_snapshot _ = none

abbrev rows : Codecs Row
rows = record {
  log_ids = record { to_vec = log_id; from_slice = read_log_id };
  indexes = record { to_vec = index; from_slice = read_index };
  votes = record { to_vec = vote; from_slice = read_vote };
  snapshots = record {
    to_vec = λ snap. snapshot snap.meta snap.content;
    from_slice = read_snapshot;
  };
  memberships = record { to_vec = members; from_slice = read_members };
}

rows-AreLossless : AreLossless rows
rows-AreLossless = record {
  log_ids = λ a. refl;
  indexes = λ a. refl;
  votes = λ a. refl;
  snapshots = λ a. refl;
  memberships = λ a. refl;
}

sets-AreFields_example : AreFields rows [] []
sets-AreFields_example = sets-AreFields rows rows-AreLossless [] []

with_layer-IsKeyed : IsKeyed with_layer
unfolding Map.lookup
with_layer-IsKeyed = record { blobs = (refl, tt); manifests = tt; tags = (refl, tt) }

abbrev no_layers : String → Option Manifest
no_layers text = some (distribution_manifest_v1 [])

abbrev any_kind : String → String → Bool
any_kind content_type text = true

abbrev as_listed : List Extraction → List Extraction
as_listed extractions = extractions

abbrev no_file : FilePath → Bool
no_file path = false

abbrev any_file : FilePath → Bool
any_file path = true

abbrev braces : FilePath → Option String
braces path = some "{}"

with_layer-IsReadable : IsReadable no_layers any_kind as_listed no_file braces "var" 1 with_layer
unfolding Map.lookup
with_layer-IsReadable = record {
  blobs = λ d a found here. elim (Bool-cases (layer == d)) [
    | inl same ↦ subst (λ x. IsHash x.hash) (==_eq layer d same) layer_IsHash
    | inr differ ↦ absurd (ground (arith, found, differ))
  ];
  manifests = λ d a found here. absurd (ground (arith, found));
}

fsck-IsRepaired_example :
    (fixes : List Unstamped) × (reports : List Report) × (db' : Db) × (fsck no_layers any_kind
        as_listed no_file braces "var" 1
        (export with_layer)
      ≡ ok (fixes, reports))
    × (apply_actions (stamp (λ k. k) 0 fixes) with_layer ≡ ok db')
    × IsRepaired no_layers any_kind as_listed no_file braces "var" 1 with_layer db'
fsck-IsRepaired_example =
    fsck-IsRepaired no_layers any_kind as_listed no_file braces "var" 1 with_layer
      with_layer-IsKeyed with_layer-IsReadable (λ k. k)

abbrev typed : Artifact
typed = record mounted_layer {
  content_type = some "application/vnd.docker.distribution.manifest.v1+json";
}

abbrev a_body : ImportBody
a_body = record { blobs = []; manifests = (other, typed) ∷ []; tags = [] }

abbrev file_of_other : FilePath
file_of_other = "bb" ∷ "bb" ∷ "bb" ∷ "bb" ∷ "manifests" ∷ "var" ∷ []

a_body_checked : fsck no_layers any_kind as_listed any_file braces "var" 1 a_body ≡ ok ([], [])
unfolding fsck check_rows check_row look_at_manifest report_manifest parse_manifest references
    check_extractions get_blob_path get_manifest_path object_path split_at Set.contains Set.extend
    str_dec ℕ_discrete
a_body_checked = refl

other_there : Map.lookup other a_body.manifests ≡ some typed
unfolding Map.lookup Digest-discrete str_dec
other_there = refl

other_here : Set.contains typed.locations 1 ≡ true
unfolding Set.contains ℕ_discrete
other_here = refl

other_at : get_manifest_path "var" other ≡ ok file_of_other
unfolding get_manifest_path object_path split_at ℕ_discrete
other_at = refl

fsck-IsSound_example :
    IsSound no_layers any_kind as_listed any_file braces "var" 1 a_body typed file_of_other
fsck-IsSound_example =
    fsck-IsSound no_layers any_kind as_listed any_file braces "var" 1 a_body [] other typed
      file_of_other a_body_checked other_there other_here other_at refl
