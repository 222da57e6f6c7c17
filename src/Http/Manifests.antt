-- ===== src/Http/Manifests.antt =====
-- src/registry/manifests. The handlers read the database `db` of the node `id`; `is_file` says
-- whether the manifest's file is there in the end, and `written` is what `consistent_write` answers.
use distribd.Prelude.{
  ℕ, String, Option, none, some, List, [], ◌∷◌, ◌++◌, panic, if◌then◌else◌, Bool, not, nat_eq,
}
use distribd.Prelude.Set
use distribd.Prelude.Map
use distribd.Types.{
  digest_eq, repository_eq, tag_key_eq, Digest, RepositoryName, RegistryAction, manifest_stored,
  manifest_mounted, manifest_unmounted, manifest_stat, hash_tagged,
}
use distribd.StateMachine.{Db}
use distribd.Webhook.{Event}
use distribd.Token.{Token, get_pull_challenge, get_push_challenge}
use distribd.Http.{
  Reply, refuse, authorize, write_or, manifest_not_found, manifest_invalid, content_type,
  content_digest, manifest_location, ok_with,
}

-- `get_tag`
abbrev pub get_tag : Db → RepositoryName → String → Option Digest
get_tag db repository tag = Map.lookup (record { repository = repository; tag = tag }) db.tags

-- what follows the wait for the download: the values were read before it
abbrev pub serve : Bool → Bool → Digest → Option String → Option ℕ → Reply
serve waited is_file digest (some kind) (some size) =
    record (if is_file
      then ok_with (content_type kind ∷ content_digest digest ∷ [])
      else refuse manifest_not_found) { waited = waited }
serve waited is_file digest _ _ = record (refuse manifest_not_found) { waited = waited }

module _ (id : ℕ) (db : Db) (token : Token) (repository : RepositoryName) where
  abbrev pub serve_manifest : Bool → Digest → Reply
  serve_manifest is_file digest = elim (Map.lookup digest db.manifests) [
    | none ↦ refuse manifest_not_found
    | some manifest ↦
        if not (Set.contains manifest.repositories repository)
        then refuse manifest_not_found
        else serve (not (Set.contains manifest.locations id)) is_file digest manifest.content_type
            manifest.size
  ]

  unfoldable pub get : Bool → Digest → Reply
  get is_file digest =
      authorize token (get_pull_challenge token repository) repository "pull"
        (serve_manifest is_file digest)

  unfoldable pub get_by_tag : Bool → String → Reply
  get_by_tag is_file tag =
      authorize token (get_pull_challenge token repository) repository "pull"
        (elim (get_tag db repository tag) [
          | none ↦ refuse manifest_not_found
          | some digest ↦ serve_manifest is_file digest
        ])

  -- the same without the file as the body
  unfoldable pub head : Bool → Digest → Reply
  head is_file digest =
      authorize token (get_pull_challenge token repository) repository "pull"
        (serve_manifest is_file digest)

  unfoldable pub head_by_tag : Bool → String → Reply
  head_by_tag is_file tag =
      authorize token (get_pull_challenge token repository) repository "pull"
        (elim (get_tag db repository tag) [
          | none ↦ refuse manifest_not_found
          | some digest ↦ serve_manifest is_file digest
        ])

  abbrev pub unmount : Bool → ℕ → Digest → Reply
  unmount written now digest = elim (Map.lookup digest db.manifests) [
    | none ↦ refuse manifest_not_found
    | some manifest ↦
        if not (Set.contains manifest.repositories repository)
        then refuse manifest_not_found
        else write_or written (manifest_unmounted now digest repository token.sub ∷ [])
            manifest_invalid (record { status = 202; headers = [] })
  ]

  unfoldable pub delete : Bool → ℕ → Digest → Reply
  delete written now digest =
      authorize token (get_push_challenge token repository) repository "push"
        (unmount written now digest)

  unfoldable pub delete_by_tag : Bool → ℕ → String → Reply
  delete_by_tag written now tag =
      authorize token (get_push_challenge token repository) repository "push"
        (elim (get_tag db repository tag) [
          | none ↦ refuse manifest_not_found
          | some digest ↦ unmount written now digest
        ])

-- The upload as the file system and `Extractor::extract` answer: whether the body was stored, its
-- size and its hash, the `content-type` header, the extracted actions, and whether the file was moved.
pub record Upload : Type 0 where
  pub stored : Bool
  pub size : Option ℕ
  pub hash : Option Digest
  pub content_type : Option String
  pub extracted : Option (List RegistryAction)
  pub renamed : Bool

-- `now k` is the k-th reading of the clock.
abbrev pub put_actions :
    ℕ
    → (ℕ → ℕ)
    → String
    → RepositoryName
    → String
    → Digest
    → ℕ
    → List RegistryAction
    → List RegistryAction
put_actions id now user repository tag digest size extracted =
    (manifest_mounted (now 0) digest repository user
      ∷ manifest_stored (now 1) digest id user
      ∷ manifest_stat (now 2) digest size
      ∷ [])
    ++ (extracted ++ (hash_tagged (now 3) digest repository tag user ∷ []))

module _ (id : ℕ) (token : Token) (repository : RepositoryName) (tag : String) where
  -- the event of the push, which is queued once the write went through
  abbrev pub pushed_event : Bool → Digest → String → List Event
  pushed_event written digest kind =
      if written
      then record { repository = repository; digest = digest; content_type = kind; tag = tag } ∷ []
      else []

  abbrev pub put_extracted : Bool → (ℕ → ℕ) → Upload → ℕ → Digest → String → Reply
  put_extracted written now upload size digest kind = elim upload.extracted [
    | none ↦ refuse manifest_invalid
    | some extracted ↦
        if not upload.renamed
        then refuse manifest_invalid
        else record (write_or written
            (put_actions id now token.sub repository tag digest size extracted) manifest_invalid
            (record {
              status = 201;
              headers = manifest_location repository digest ∷ content_digest digest ∷ [];
            })) { events = pushed_event written digest kind }
  ]

  abbrev pub put_hashed : Bool → (ℕ → ℕ) → Upload → Option ℕ → Option Digest → Option String → Reply
  put_hashed written now upload none hash kind = refuse manifest_invalid
  put_hashed written now upload (some size) none kind = refuse manifest_invalid
  put_hashed written now upload (some size) (some digest) none = record (refuse manifest_invalid) {
    result = panic;
  }
  put_hashed written now upload (some size) (some digest) (some kind) =
      put_extracted written now upload size digest kind

  unfoldable pub put : Bool → (ℕ → ℕ) → Upload → Reply
  put written now upload = authorize token (get_push_challenge token repository) repository "push" (
      if not upload.stored
      then refuse manifest_invalid
      else put_hashed written now upload upload.size upload.hash upload.content_type)
