-- ===== src/Http/Sessions/Whole.antt =====
-- An upload from its start to its end: `post`, any number of `patch`es, and `put`.
use distribd.Prelude.{
  ℕ, String, Option, none, some, List, [], ◌∷◌, ◌++◌, map, Bool, true, ◌≡◌, ◌≢◌, refl, sym, ◌∙◌,
  arith, subst, ◌⊎◌, inl, inr, Bool-cases, ◌==◌, ==_eq, ==_refl, nat_eq, string_eq, length, ap,
}
use distribd.Prelude.Map
use distribd.Prelude.Map.{lookup-insert, lookup-remove}
use distribd.Types.{digest_eq, Digest, RepositoryName}
use distribd.StateMachine.{Db}
use distribd.Token.{Token, has_permission}
use distribd.Http.{Reply, refuse, write_or, upload_invalid, digest_invalid}
use distribd.Http.Uploads.{
  Disk, Bytes, set_upload, patch, finished, put, post, created, stored_actions,
}
use distribd.Http.Sessions.{
  concat, IsNext, patch-appends, append_assoc, append_nil, upload_part-whole,
  has_permission-validated,
}

-- a part: its range, if it has one, and the chunks of its body
abbrev pub Part : Type 0
Part = Option (ℕ × ℕ) × List Bytes

abbrev pub bytes_of : List Part → Bytes
bytes_of [] = []
bytes_of ((content_range, chunks) ∷ parts) = concat chunks ++ bytes_of parts

-- Every range is that of the bytes that come next.
abbrev pub AreNext : List Part → Bytes → Type 0
AreNext [] file = Unit
AreNext ((content_range, chunks) ∷ parts) file =
    IsNext content_range (length file) × AreNext parts (file ++ concat chunks)

module _ (token : Token) (repository : RepositoryName) (upload_id : String)
    (allowed : has_permission token repository "push" ≡ true) where
  abbrev pub patch_all : List Part → Disk → Disk
  patch_all [] disk = disk
  patch_all ((content_range, chunks) ∷ parts) disk =
      patch_all parts (patch token repository upload_id content_range (map some chunks) disk).0

  record IsLonger (disk disk' : Disk) (file : Bytes) : Type 0 where
    pub whole : Map.lookup upload_id disk'.uploads ≡ some file
    pub blobs : disk'.blobs ≡ disk.blobs

  patch_all-IsLonger :
      (parts : List Part) (disk : Disk) (file : Bytes)
      → Map.lookup upload_id disk.uploads ≡ some file
      → AreNext parts file
      → IsLonger disk (patch_all parts disk) (file ++ bytes_of parts)
  patch_all-IsLonger [] disk file found next = record {
    whole = found ∙ ap some (sym (append_nil file));
    blobs = refl;
  }
  patch_all-IsLonger ((content_range, chunks) ∷ parts) disk file found next =
      elim (patch-appends token repository upload_id allowed disk file found content_range chunks) [
        | inr (wrong, e) ↦ absurd (wrong next.0)
        | inl (right, e) ↦
            let longer = file ++ concat chunks in
            let rest =
              patch_all-IsLonger parts (set_upload upload_id longer disk) longer
                (ground
                  (arith, lookup-insert upload_id upload_id longer disk.uploads, ==_refl upload_id))
                next.1 in
            rw e (record {
              whole = rest.whole ∙ ap some (append_assoc file (concat chunks) (bytes_of parts));
              blobs = rest.blobs;
            })
      ]

  module _ (hash : Bytes → Digest) (id : ℕ) (written : Bool) (now : ℕ → ℕ) (db : Db) where
    -- the disk once the session was started and its parts were sent
    abbrev pub sent : List Part → Disk → Disk
    sent parts disk =
        patch_all parts
          (post hash id token repository written now db upload_id none none none [] disk).0

    -- What the last request does with all the bytes.
    abbrev pub IsEnded : Digest → Bytes → Disk → Disk × Reply → Type 0
    IsEnded digest file disk end =
        ((hash file ≡ digest)
          × (Map.lookup digest end.0.blobs ≡ some file)
          × (Map.lookup upload_id end.0.uploads ≡ none)
          × (end.1
              ≡ write_or written (stored_actions id now token.sub repository digest (length file))
                  upload_invalid (record { status = 201; headers = created repository digest })))
        ⊎ ((hash file ≢ digest) × (end.0.blobs ≡ disk.blobs) × (end.1 ≡ refuse digest_invalid))

    post-starts :
        (disk : Disk)
        → (post hash id token repository written now db upload_id none none none [] disk).0
          ≡ set_upload upload_id [] disk
    unfolding post
    post-starts disk =
        rw (allowed, has_permission-validated token repository upload_id allowed) refl

    finished-IsEnded :
        (digest : Digest) (file : Bytes) (disk disk₀ : Disk)
        → disk.blobs ≡ disk₀.blobs
        → IsEnded digest file disk₀
            (finished hash id token repository written now upload_id digest disk (file, true))
    finished-IsEnded digest file disk disk₀ same = elim (Bool-cases (hash file == digest)) [
      | inl right ↦ rw right (
          inl (
            ==_eq (hash file) digest right,
            ground (arith, lookup-insert digest digest file disk.blobs, ==_refl digest),
            ground (arith, lookup-remove upload_id upload_id disk.uploads, ==_refl upload_id),
            refl,
          ))
      | inr wrong ↦ rw wrong (inr ((λ p. ground (arith, wrong, p, ==_refl digest)), same, refl))
    ]

    last_put-IsEnded :
        (last : List Bytes) (digest : Digest) (file : Bytes) (disk disk₀ : Disk)
        → Map.lookup upload_id disk.uploads ≡ some file
        → disk.blobs ≡ disk₀.blobs
        → (digest.algo == "sha256") ≡ true
        → IsEnded digest
            (file ++ concat last)
            disk₀
            (put hash id token repository written now upload_id digest (map some last) disk)
    unfolding put
    last_put-IsEnded last digest file disk disk₀ found same sha =
        rw
          (
            allowed,
            has_permission-validated token repository upload_id allowed,
            sha,
            found,
            upload_part-whole last file,
          )
          (finished-IsEnded digest (file ++ concat last) disk disk₀ same)

    -- Let a token that may push start an upload, send its parts in order, and end it with a sha256
    -- digest, every body being read without an error. If the digest is the hash of all the bytes that
    -- were sent, then these are the digest's blob, the upload is gone, and the transaction that mounts,
    -- measures and stores the blob is submitted, with their number as its size, and answered with 201 if
    -- it is written. If not, the digest is refused and no blob's file has changed.
    pub put-IsEnded :
        (parts : List Part) (last : List Bytes) (digest : Digest) (disk : Disk)
        → AreNext parts []
        → (digest.algo == "sha256") ≡ true
        → IsEnded digest (bytes_of parts ++ concat last) disk (
            put hash id token repository written now upload_id digest
              (map some last)
              (sent parts disk))
    put-IsEnded parts last digest disk next sha =
        let all =
          patch_all-IsLonger parts (set_upload upload_id [] disk) []
            (ground (arith, lookup-insert upload_id upload_id [] disk.uploads, ==_refl upload_id))
            next in
        subst
          (λ d. IsEnded digest (bytes_of parts ++ concat last) disk (
            put hash id token repository written now upload_id digest (map some last)
              (patch_all parts d)))
          (sym (post-starts disk))
          (last_put-IsEnded last digest (bytes_of parts)
            (patch_all parts (set_upload upload_id [] disk)) disk all.whole all.blobs sha)
