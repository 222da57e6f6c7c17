-- ===== src/Extractor.antt =====
-- src/extractor.rs: the analysis of a pushed manifest and of the blobs that it refers to. serde_json's
-- `from_str` and the check of a text against the schema of a content type are parameters, and so are
-- the order in which a `HashSet` drains and what `read_to_string` gives for a blob's path. The
-- `while` loop takes fuel, `none` being that it ran out; `enough` is always enough.
pub mod Ends
pub mod Allowed
use mathlib.Core.Logic.{dite}
use distribd.Prelude.{
  ℕ, suc, zero, String, Option, none, some, List, [], ◌∷◌, ◌++◌, if◌then◌else◌, Bool, true, false,
  not, ◌==◌, map, length, Eq, str_dec, Option-discrete, ap, ◌≡◌, refl, ◌⊎◌, inl, inr, nat_eq,
  string_eq,
}
use distribd.Prelude.Set
use distribd.Prelude.Map
use distribd.Types.{
  digest_eq, repository_eq, Digest, Digest-discrete, RepositoryName, Artifact, RegistryAction,
  blob_info, manifest_info,
}
use distribd.StateMachine.{Db}
use distribd.Management.{Unstamped, stamp}

-- `ManifestV2Config` and `ManifestV2Layer`, less the urls
pub record Descriptor : Type 0 where
  pub media_type : String
  pub size : Option ℕ
  pub digest : Digest

pub data Manifest : Type 0 where
  manifest_v2 : (config : Descriptor) (layers : List Descriptor) → Manifest
  distribution_manifest_list_v2 : (manifests : List Descriptor) → Manifest
  distribution_manifest_v1 : (layers : List Digest) → Manifest

pub data ExtractError : Type 0 where
  unknown_error schema_validation_error : ExtractError

pub record Extraction : Type 0 where
  pub digest : Digest
  pub content_type : String
  pub size : Option ℕ

unfoldable pub Extraction-discrete : Discrete Extraction
Extraction-discrete a b =
    dite (Digest-discrete a.digest b.digest)
      (λ same_digest.
        dite (str_dec a.content_type b.content_type)
          (λ same_type.
            dite (Option-discrete a.size b.size)
              (λ same_size. yes (λ i. record {
                digest = same_digest i;
                content_type = same_type i;
                size = same_size i;
              }))
              (λ differ. no (λ p. differ (ap (λ (x : Extraction). x.size) p))))
          (λ differ. no (λ p. differ (ap (λ (x : Extraction). x.content_type) p))))
      (λ differ. no (λ p. differ (ap (λ (x : Extraction). x.digest) p)))

instance abbrev pub extraction_eq : Eq Extraction
extraction_eq = record { dec = Extraction-discrete }

-- the keys that `Extractor::new` gives to `schemas`
abbrev pub schemas : List String
schemas =
    "application/vnd.docker.container.image.v1+json"
    ∷ "application/vnd.docker.distribution.manifest.v1+json"
    ∷ "application/vnd.docker.distribution.manifest.v1+prettyjws"
    ∷ "application/vnd.docker.distribution.manifest.v2+json"
    ∷ "application/vnd.docker.distribution.manifest.list.v2+json"
    ∷ "application/vnd.oci.image.index.v1+json" ∷ "application/vnd.oci.image.manifest.v1+json" ∷ []

abbrev described : Descriptor → Extraction
described layer = record {
  digest = layer.digest;
  content_type = layer.media_type;
  size = layer.size;
}

abbrev undescribed : Digest → Extraction
undescribed digest = record {
  digest = digest;
  content_type = "application/octet-string";
  size = none;
}

-- the `HashSet` of the manifest's references; a text that does not parse has none
unfoldable pub references : Option Manifest → List Extraction
references none = []
references (some (distribution_manifest_list_v2 manifests)) =
    Set.extend (map described manifests) []
references (some (manifest_v2 config layers)) =
    Set.extend (map described layers) (Set.insert (described config) [])
references (some (distribution_manifest_v1 layers)) = Set.extend (map undescribed layers) []

-- the state of the loop
pub record Walk : Type 0 where
  pub analysis : List Unstamped
  pub pending : List Extraction
  pub seen : List Digest

pub data Analysis (A : Type 0) : Type 0 where
  done : A → Analysis A
  failed : ExtractError → Analysis A

pub Analysis-cases :
    {A : Type 0} (r : Analysis A)
    → ((error : ExtractError) × (r ≡ failed error)) ⊎ ((a : A) × (r ≡ done a))
Analysis-cases (done a) = inr (a, refl)
Analysis-cases (failed error) = inl (error, refl)

abbrev pub digests_of : List Extraction → List Digest
digests_of = map (λ e. e.digest)

abbrev pub is_some {ℓ} : {A : Type ℓ} → Option A → Bool
is_some none = false
is_some (some a) = true

-- `if let Some(size) = extraction.size { if Some(size) != blob.size { … } }`
abbrev pub fits : Option ℕ → Option ℕ → Bool
fits none size = true
fits (some wanted) none = false
fits (some wanted) (some size) = wanted == size

-- the check against the schema of the content type
abbrev pub validate : (String → String → Bool) → String → String → Bool
validate is_valid content_type data_ =
    if Set.contains schemas content_type then is_valid content_type data_ else false

abbrev pub extract_one : (String → Option Manifest) → String → List Extraction
extract_one from_str data_ = references (from_str data_)

unfoldable pub parse_manifest :
    (String → Option Manifest)
    → (String → String → Bool)
    → Option String
    → String
    → Analysis (List Extraction)
unfolding references
parse_manifest from_str is_valid none content_type = failed unknown_error
parse_manifest from_str is_valid (some data_) content_type =
    if validate is_valid content_type data_
    then done (extract_one from_str data_)
    else failed schema_validation_error

module _ (from_str : String → Option Manifest) (is_valid : String → String → Bool)
    (read : Digest → Option String) (drain : List Extraction → List Extraction) (db : Db)
    (repository : RepositoryName) where
  abbrev pub analyzed : Extraction → List Extraction → Walk → Walk
  analyzed e dependencies w = record {
    analysis =
        w.analysis
        ++ ((λ now. blob_info now e.digest (digests_of dependencies) e.content_type) ∷ []);
    pending = Set.extend dependencies w.pending;
    seen = Set.insert e.digest w.seen;
  }

  -- what follows the checks of a blob that was not analysed before
  abbrev pub analyze : Extraction → Walk → Analysis Walk
  analyze e w =
      if not (Set.contains schemas e.content_type)
      then done (analyzed e [] w)
      else elim (read e.digest) [
        | none ↦ failed unknown_error
        | some data_ ↦ done (analyzed e (extract_one from_str data_) w)
      ]

  -- one round of the `for` loop
  unfoldable pub visit : Extraction → Walk → Analysis Walk
  visit e w = if Set.contains w.seen e.digest then done w else elim (Map.lookup e.digest db.blobs) [
    | none ↦ failed unknown_error
    | some blob ↦
        if is_some blob.content_type
        then done w
        else if not (Set.contains blob.repositories repository)
        then failed unknown_error
        else if not (fits e.size blob.size)
        then failed unknown_error
        else analyze e w
  ]

  unfoldable pub visit_all : List Extraction → Walk → Analysis Walk
  unfolding visit
  visit_all [] w = done w
  visit_all (e ∷ es) w = elim (visit e w) [
    | failed error ↦ failed error
    | done w' ↦ visit_all es w'
  ]

  -- the `while` loop
  unfoldable pub rounds : ℕ → Walk → Option (Analysis (List Unstamped))
  unfolding visit_all
  rounds zero w = none
  rounds (suc fuel) w = elim (Set.is_empty w.pending) [
    | true ↦ some (done w.analysis)
    | false ↦ elim (visit_all (drain w.pending) (record w { pending = [] })) [
      | failed error ↦ some (failed error)
      | done w' ↦ rounds fuel w'
    ]
  ]

  abbrev pub enough : ℕ
  enough = suc (suc (suc (length db.blobs)))

  abbrev pub first_walk : Digest → String → List Extraction → Walk
  first_walk digest content_type dependencies = record {
    analysis = (λ now. manifest_info now digest (digests_of dependencies) content_type) ∷ [];
    pending = Set.extend dependencies [];
    seen = [];
  }

  -- `data_` is what `read_to_string` gives for the pushed file.
  unfoldable pub extract : Digest → String → Option String → Option (Analysis (List Unstamped))
  unfolding rounds references
  extract digest content_type none = some (failed unknown_error)
  extract digest content_type (some data_) =
      if validate is_valid content_type data_
      then rounds enough (first_walk digest content_type (extract_one from_str data_))
      else some (failed schema_validation_error)
