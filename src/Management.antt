-- ===== src/Management.antt =====
-- `import` and `export` of src/network/management.rs: a database as one body, and the transaction
-- that imports one. Every action reads the clock; `clock k` is what the read for action `k` gives.
pub mod Stamps
pub mod Copies
pub mod Retags
pub mod Import
pub mod Export
use distribd.Prelude.{ℕ, suc, String, Option, none, some, List, [], ◌∷◌, ◌++◌, map}
use distribd.Prelude.Map.{Map}
use distribd.Types.{
  Digest, RepositoryName, Artifact, Blob, Manifest, RegistryAction, blob_stored, blob_mounted,
  blob_info, blob_stat, manifest_stored, manifest_mounted, manifest_info, manifest_stat,
  hash_tagged,
}
use distribd.StateMachine.{Tree, Db}
use distribd.Snapshot.{Tags, serialize}

pub record ImportBody : Type 0 where
  pub blobs : Map Digest Blob
  pub manifests : Map Digest Manifest
  pub tags : Tags

abbrev pub import_user : String
import_user = "$import"

-- an action that waits for its timestamp
abbrev pub Unstamped : Type 0
Unstamped = ℕ → RegistryAction

-- The four actions of the loop over the blobs, and of the loop over the manifests.
pub record Kind : Type 0 where
  pub mounted : ℕ → Digest → RepositoryName → String → RegistryAction
  pub stored : ℕ → Digest → ℕ → String → RegistryAction
  pub info : ℕ → Digest → List Digest → String → RegistryAction
  pub stat : ℕ → Digest → ℕ → RegistryAction

abbrev pub blob_kind : Kind
blob_kind = record {
  mounted = blob_mounted;
  stored = blob_stored;
  info = blob_info;
  stat = blob_stat;
}

abbrev pub manifest_kind : Kind
manifest_kind = record {
  mounted = manifest_mounted;
  stored = manifest_stored;
  info = manifest_info;
  stat = manifest_stat;
}

module _ (kind : Kind) where
  -- `if let (Some(dependencies), Some(content_type))`
  abbrev pub import_info : Digest → Option (List Digest) → Option String → List Unstamped
  import_info digest (some dependencies) (some content_type) =
      (λ now. kind.info now digest dependencies content_type) ∷ []
  import_info digest _ _ = []

  abbrev pub import_size : Digest → Option ℕ → List Unstamped
  import_size digest none = []
  import_size digest (some size) = (λ now. kind.stat now digest size) ∷ []

  unfoldable pub import_mounts : Digest → List RepositoryName → List Unstamped
  import_mounts digest [] = []
  import_mounts digest (repository ∷ repositories) =
      (λ now. kind.mounted now digest repository import_user) ∷ import_mounts digest repositories

  unfoldable pub import_locations : Digest → List ℕ → List Unstamped
  import_locations digest [] = []
  import_locations digest (location ∷ locations) =
      (λ now. kind.stored now digest location import_user) ∷ import_locations digest locations

  unfoldable pub import_artifact : Digest → Artifact → List Unstamped
  unfolding import_mounts import_locations
  import_artifact digest artifact =
      import_mounts digest artifact.repositories
      ++ (import_locations digest artifact.locations
          ++ (import_info digest artifact.dependencies artifact.content_type
              ++ import_size digest artifact.size))

  unfoldable pub import_artifacts : Tree → List Unstamped
  unfolding import_artifact
  import_artifacts [] = []
  import_artifacts ((digest, artifact) ∷ rows) =
      import_artifact digest artifact ++ import_artifacts rows

unfoldable pub import_repository : RepositoryName → Map String Digest → List Unstamped
import_repository repository [] = []
import_repository repository ((tag, digest) ∷ tags) =
    (λ now. hash_tagged now digest repository tag import_user) ∷ import_repository repository tags

unfoldable pub import_tags : Tags → List Unstamped
unfolding import_repository
import_tags [] = []
import_tags ((repository, tags) ∷ rows) = import_repository repository tags ++ import_tags rows

unfoldable pub stamp : (ℕ → ℕ) → ℕ → List Unstamped → List RegistryAction
stamp clock k [] = []
stamp clock k (action ∷ actions) = action (clock k) ∷ stamp clock (suc k) actions

unfoldable pub import_actions : (ℕ → ℕ) → ImportBody → List RegistryAction
unfolding import_artifacts import_tags stamp
import_actions clock payload = stamp clock 0 (
    import_artifacts blob_kind payload.blobs
    ++ (import_artifacts manifest_kind payload.manifests ++ import_tags payload.tags))

unfoldable pub export : Db → ImportBody
unfolding serialize
export db =
    let state_machine = serialize db in
    record {
      blobs = state_machine.blobs;
      manifests = state_machine.manifests;
      tags = state_machine.tags;
    }
