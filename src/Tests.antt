-- ===== src/Tests.antt =====
-- Concrete inputs, and the theorems applied to them.
mod Machine
mod Sweeping
mod Web
mod Mirroring
mod Pushing
mod Layout
mod Files
mod Keys
mod Cluster
mod Checks
mod Gauges
mod Hooks
mod Nodes
use distribd.Prelude.{ℕ, String, none, some, [], ◌∷◌, List}
use distribd.Types.{
  Digest, RepositoryName, TagKey, Artifact, RegistryAction, blob_mounted, blob_stored, hash_tagged,
}
use distribd.Raft.{LeaderId, LogId, Entry, normal, transaction}
use distribd.StateMachine.{Db, fresh}
use distribd.Store.{RegistryStore, new_watch}

abbrev pub layer : Digest
layer = record { algo = "sha256"; hash = "aaaaaaaa" }

abbrev pub other : Digest
other = record { algo = "sha256"; hash = "bbbbbbbb" }

abbrev pub library : RepositoryName
library = record { name = "library" }

abbrev pub latest : TagKey
latest = record { repository = library; tag = "latest" }

abbrev pub mounted_layer : Artifact
mounted_layer = record {
  size = none;
  content_type = none;
  dependencies = some [];
  repositories = library ∷ [];
  locations = 1 ∷ [];
  created = 5;
  updated = 6;
}

abbrev pub mount_and_store : List RegistryAction
mount_and_store =
    blob_mounted 5 layer library "alice"
    ∷ blob_stored 6 layer 1 "alice"
    ∷ hash_tagged 7 other library "latest" "alice"
    ∷ []

abbrev pub with_layer : Db
with_layer = record fresh { blobs = (layer, mounted_layer) ∷ []; tags = (latest, other) ∷ [] }

abbrev pub log_id_at : ℕ → LogId
log_id_at index = record { leader_id = record { term = 1; node_id = 1 }; index = index }

abbrev pub entry_one : Entry
entry_one = record { log_id = log_id_at 1; payload = normal (transaction mount_and_store) }

abbrev pub after_entry : Db
after_entry = record with_layer { last_applied_log = some (log_id_at 1) }

abbrev pub node_two : RegistryStore
node_two = record { id = 2; db = fresh; watch = new_watch [] [] }
