-- ===== src/Network.antt =====
-- The endpoints of src/network/raft.rs that serve blobs and manifests to the mirrors of other nodes.
-- They ask for no token, and do not wait for a download.
use distribd.Prelude.{ℕ, Option, none, some, [], ◌∷◌, Bool, not, if◌then◌else◌, String, nat_eq}
use distribd.Prelude.Set
use distribd.Prelude.Map
use distribd.Types.{digest_eq, Digest}
use distribd.StateMachine.{Db}
use distribd.Http.{
  Reply, refuse, blob_not_found, manifest_not_found, content_type, content_digest, ok_with,
}
use distribd.Http.Blobs.{type_or_default}

abbrev pub send_blob : Bool → Digest → Option String → Option ℕ → Reply
send_blob is_file digest kind none = refuse blob_not_found
send_blob is_file digest kind (some size) =
    if not is_file
    then refuse blob_not_found
    else ok_with (content_type (type_or_default kind) ∷ content_digest digest ∷ [])

abbrev pub send_manifest : Bool → Digest → Option String → Option ℕ → Reply
send_manifest is_file digest (some kind) (some size) =
    if not is_file
    then refuse manifest_not_found
    else ok_with (content_type kind ∷ content_digest digest ∷ [])
send_manifest is_file digest _ _ = refuse manifest_not_found

module _ (id : ℕ) (db : Db) where
  unfoldable pub get_blob : Bool → Digest → Reply
  get_blob is_file digest = elim (Map.lookup digest db.blobs) [
    | none ↦ refuse blob_not_found
    | some blob ↦
        if not (Set.contains blob.locations id)
        then refuse blob_not_found
        else send_blob is_file digest blob.content_type blob.size
  ]

  unfoldable pub get_manifest : Bool → Digest → Reply
  get_manifest is_file digest = elim (Map.lookup digest db.manifests) [
    | none ↦ refuse manifest_not_found
    | some manifest ↦
        if not (Set.contains manifest.locations id)
        then refuse manifest_not_found
        else send_manifest is_file digest manifest.content_type manifest.size
  ]
