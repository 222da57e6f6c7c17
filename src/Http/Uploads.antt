-- ===== src/Http/Uploads.antt =====
-- src/registry/blobs/uploads with `upload_part` and `validate_hash` of utils.rs. The disk is the files
-- of the open uploads by their id, and those of the blobs; a file is its bytes. A body is its chunks,
-- `none` being a read that fails. The hash function of ring is the parameter `hash`; the disk itself
-- does not fail. `written` is what `consistent_write` answers, and `now k` is the k-th reading of the clock.
use distribd.Prelude.{
  ℕ, ◌+◌, ◌-◌, ◌^◌, ◌%◌, String, Option, none, some, List, [], ◌∷◌, ◌++◌, Outcome, panic,
  if◌then◌else◌, Bool, true, false, not, ◌==◌, ltb, length, nat_eq, string_eq,
}
use distribd.Prelude.Set
use distribd.Prelude.Map
use distribd.Prelude.Map.{Map}
use distribd.Types.{
  digest_eq, repository_eq, Digest, RepositoryName, RegistryAction, blob_mounted, blob_stat,
  blob_stored,
}
use distribd.StateMachine.{Db}
use distribd.Token.{Access, Token, has_permission, get_challenge, get_push_challenge}
use distribd.Http.{
  Header, Reply, refuse, answer, challenge_with, write_or, range_end, access_denied, upload_invalid,
  upload_not_found, digest_invalid, range_not_satisfiable, upload_headers, upload_location,
  blob_location, content_digest, content_length, range, docker_upload_uuid,
}

abbrev pub Bytes : Type 0
Bytes = List ℕ

abbrev pub Body : Type 0
Body = List (Option Bytes)

pub record Disk : Type 0 where
  pub uploads : Map String Bytes
  pub blobs : Map Digest Bytes

-- the file after the loop over the chunks, and whether the body ended
unfoldable pub upload_part : Body → Bytes → Bytes × Bool
upload_part [] file = (file, true)
upload_part (none ∷ body) file = (file, false)
upload_part (some item ∷ body) file = upload_part body (file ++ item)

abbrev pub panics : Reply
panics = record { submitted = []; events = []; waited = false; result = panic }

-- `authorize` for a handler that changes the disk
abbrev pub authorize_disk :
    Token → Outcome String → RepositoryName → String → Disk → Disk × Reply → Disk × Reply
authorize_disk token challenge repository permission disk rest =
    if not token.validated_token
    then (disk, challenge_with challenge)
    else if not (has_permission token repository permission)
    then (disk, refuse access_denied)
    else rest

abbrev pub set_upload : String → Bytes → Disk → Disk
set_upload upload_id file disk = record disk { uploads = Map.insert upload_id file disk.uploads }

-- `rename` of an upload's file to a blob's path
abbrev pub rename : String → Digest → Bytes → Disk → Disk
rename upload_id digest file disk = record {
  uploads = Map.remove upload_id disk.uploads;
  blobs = Map.insert digest file disk.blobs;
}

-- the test of a `content-range` header that `get_http_range` could read
abbrev pub is_next : Option (ℕ × ℕ) → ℕ → Bool
is_next none size = true
is_next (some (start, stop)) size = if ltb stop start then false else start == size

module _ (token : Token) (repository : RepositoryName) where
  abbrev pub patched : String → Disk → Bytes × Bool → Disk × Reply
  patched upload_id disk (file, false) = (set_upload upload_id file disk, panics)
  patched upload_id disk (file, true) = (
    set_upload upload_id file disk,
    answer (record {
      status = 202;
      headers = upload_headers repository upload_id (range_end (length file));
    }),
  )

  unfoldable pub patch : String → Option (ℕ × ℕ) → Body → Disk → Disk × Reply
  unfolding upload_part
  patch upload_id content_range body disk =
      authorize_disk token (get_push_challenge token repository) repository "push" disk
        (elim (Map.lookup upload_id disk.uploads) [
          | none ↦ (disk, refuse upload_invalid)
          | some file ↦
              if is_next content_range (length file)
              then patched upload_id disk (upload_part body file)
              else (disk, refuse (range_not_satisfiable repository upload_id (length file)))
        ])

  -- `size - 1` on u64, which wraps around in a release build
  unfoldable pub get : String → Disk → Disk × Reply
  get upload_id disk =
      authorize_disk token (get_push_challenge token repository) repository "pull" disk
        (elim (Map.lookup upload_id disk.uploads) [
          | none ↦ (disk, refuse upload_not_found)
          | some file ↦ (
            disk,
            answer (record {
              status = 204;
              headers = upload_headers repository upload_id ((length file + (2 ^ 64 - 1)) % 2 ^ 64);
            }),
          )
        ])

  unfoldable pub delete : String → Disk → Disk × Reply
  delete upload_id disk =
      authorize_disk token (get_push_challenge token repository) repository "push" disk
        (elim (Map.lookup upload_id disk.uploads) [
          | none ↦ (disk, refuse upload_invalid)
          | some file ↦ (
            record disk { uploads = Map.remove upload_id disk.uploads },
            answer (record { status = 204; headers = [] }),
          )
        ])

abbrev pub created : RepositoryName → Digest → List Header
created repository digest =
    blob_location repository digest ∷ range 0 ∷ content_length 0 ∷ content_digest digest ∷ []

-- the transaction of a finished upload
abbrev pub stored_actions : ℕ → (ℕ → ℕ) → String → RepositoryName → Digest → ℕ → List RegistryAction
stored_actions id now user repository digest size =
    blob_mounted (now 0) digest repository user
    ∷ blob_stat (now 1) digest size
    ∷ blob_stored (now 2) digest id user
    ∷ []

module _ (hash : Bytes → Digest) (id : ℕ) (token : Token) (repository : RepositoryName)
    (written : Bool) (now : ℕ → ℕ) where
  -- validation, the move of the file and the write, behind the upload
  abbrev pub finished : String → Digest → Disk → Bytes × Bool → Disk × Reply
  finished upload_id digest disk (file, false) = (set_upload upload_id file disk, panics)
  finished upload_id digest disk (file, true) =
      if hash file == digest
      then (
        rename upload_id digest file disk,
        write_or written (stored_actions id now token.sub repository digest (length file))
            upload_invalid (record { status = 201; headers = created repository digest }),
      )
      else (set_upload upload_id file disk, refuse digest_invalid)

  unfoldable pub put : String → Digest → Body → Disk → Disk × Reply
  unfolding upload_part
  put upload_id digest body disk =
      authorize_disk token (get_push_challenge token repository) repository "push" disk (
        if not (digest.algo == "sha256")
        then (disk, refuse upload_invalid)
        else elim (Map.lookup upload_id disk.uploads) [
          | none ↦ (disk, refuse upload_invalid)
          | some file ↦ finished upload_id digest disk (upload_part body file)
        ])

  -- The upload in one request, or the start of a session, with a fresh `upload_id`. The upload's file
  -- is new: no upload has the id.
  abbrev pub start : String → Option Digest → Body → Disk → Disk × Reply
  start upload_id none body disk = (
    set_upload upload_id [] disk,
    answer (record {
      status = 202;
      headers =
          upload_location repository upload_id
          ∷ range 0
          ∷ content_length 0
          ∷ docker_upload_uuid upload_id
          ∷ [];
    }),
  )
  start upload_id (some digest) body disk = finished upload_id digest disk (upload_part body [])

  -- `if let (Some(mount), Some(from)) = …`, and what follows it where it does not return
  abbrev pub mount_or :
      Db → Option Digest → Option RepositoryName → Disk → Disk × Reply → Disk × Reply
  mount_or db none from disk rest = rest
  mount_or db (some mount) none disk rest = rest
  mount_or db (some mount) (some from) disk rest =
      if from == repository
      then (disk, refuse upload_invalid)
      else if not (has_permission token from "pull")
      then (disk, refuse upload_invalid)
      else elim (Map.lookup mount db.blobs) [
        | none ↦ rest
        | some blob ↦
            if Set.contains blob.repositories from
            then (
              disk,
              write_or written (blob_mounted (now 0) mount repository token.sub ∷ []) upload_invalid
                  (record { status = 201; headers = created repository mount }),
            )
            else rest
      ]

  -- the challenge's access: push to the repository, and pull from `from` where there is one
  abbrev post_access : Option RepositoryName → List Access
  post_access none = record { repository = repository; permissions = "pull" ∷ "push" ∷ [] } ∷ []
  post_access (some from) =
      record { repository = repository; permissions = "pull" ∷ "push" ∷ [] }
      ∷ record { repository = from; permissions = "pull" ∷ [] }
      ∷ []

  unfoldable pub post :
      Db
      → String
      → Option Digest
      → Option RepositoryName
      → Option Digest
      → Body
      → Disk
      → Disk × Reply
  unfolding upload_part
  post db upload_id mount from digest body disk =
      authorize_disk token (get_challenge token (post_access from)) repository "push" disk
        (mount_or db mount from disk (start upload_id digest body disk))
