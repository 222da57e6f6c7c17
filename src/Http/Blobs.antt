-- ===== src/Http/Blobs.antt =====
-- `get`, `head` and `delete` of src/registry/blobs.
use distribd.Prelude.{ℕ, String, Option, none, some, [], ◌∷◌, if◌then◌else◌, Bool, not, nat_eq}
use distribd.Prelude.Set
use distribd.Prelude.Map
use distribd.Types.{digest_eq, repository_eq, Digest, RepositoryName, blob_unmounted}
use distribd.StateMachine.{Db}
use distribd.Token.{Token, get_pull_challenge, get_push_challenge}
use distribd.Http.{
  Reply, refuse, authorize, write_or, ok_with, blob_not_found, content_type, content_digest,
}

abbrev pub type_or_default : Option String → String
type_or_default (some kind) = kind
type_or_default none = "application/octet-steam"

abbrev pub serve : Bool → Bool → Digest → Option String → Option ℕ → Reply
serve waited is_file digest kind none = record (refuse blob_not_found) { waited = waited }
serve waited is_file digest kind (some size) =
    record (if is_file
      then ok_with (content_type (type_or_default kind) ∷ content_digest digest ∷ [])
      else refuse blob_not_found) { waited = waited }

module _ (id : ℕ) (db : Db) (token : Token) (repository : RepositoryName) where
  abbrev pub serve_blob : Bool → Digest → Reply
  serve_blob is_file digest = elim (Map.lookup digest db.blobs) [
    | none ↦ refuse blob_not_found
    | some blob ↦
        if not (Set.contains blob.repositories repository)
        then refuse blob_not_found
        else serve (not (Set.contains blob.locations id)) is_file digest blob.content_type blob.size
  ]

  unfoldable pub get : Bool → Digest → Reply
  get is_file digest =
      authorize token (get_pull_challenge token repository) repository "pull"
        (serve_blob is_file digest)

  -- the same without the file as the body
  unfoldable pub head : Bool → Digest → Reply
  head is_file digest =
      authorize token (get_pull_challenge token repository) repository "pull"
        (serve_blob is_file digest)

  unfoldable pub delete : Bool → ℕ → Digest → Reply
  delete written now digest =
      authorize token (get_push_challenge token repository) repository "push"
        (elim (Map.lookup digest db.blobs) [
          | none ↦ refuse blob_not_found
          | some blob ↦
              if not (Set.contains blob.repositories repository)
              then refuse blob_not_found
              else write_or written (blob_unmounted now digest repository token.sub ∷ [])
                  blob_not_found (record { status = 202; headers = [] })
        ])
