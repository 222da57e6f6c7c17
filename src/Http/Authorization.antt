-- ===== src/Http/Authorization.antt =====
-- The token's checks, for every handler of src/registry.
use distribd.Prelude.{
  ℕ, String, Option, [], Outcome, ok, Bool, true, false, ◌≡◌, refl, arith, ◌⊎◌, inl, inr,
  Bool-cases, Outcome-cases,
}
use distribd.Types.{digest_eq, repository_eq, Digest, RepositoryName}
use distribd.StateMachine.{Db}
use distribd.Token.{Token, has_permission}
use distribd.Http.{Reply, Response, done, authorize, challenge_with}
use distribd.Http.Manifests
use distribd.Http.Blobs
use distribd.Http.Uploads
use distribd.Http.Uploads.{Disk, Body, Bytes, authorize_disk}

-- Nothing is submitted, queued for the webhooks or awaited, and no response is given.
abbrev pub IsRefused : Reply → Type 0
IsRefused reply =
    (reply.submitted ≡ [])
    × (reply.events ≡ [])
    × (reply.waited ≡ false)
    × (¬ ((response : Response) × (reply.result ≡ ok (done response))))

abbrev pub IsGuarded : Token → RepositoryName → String → Reply → Type 0
IsGuarded token repository permission reply =
    (has_permission token repository permission ≡ true) ⊎ IsRefused reply

module _ (token : Token) (challenge : Outcome String) (repository : RepositoryName)
    (permission : String) where
  challenge-IsRefused : IsRefused (challenge_with challenge)
  challenge-IsRefused = elim (Outcome-cases challenge) [
    | inl e ↦ rw e (refl, refl, refl, (λ (r, p). ground arith))
    | inr (s, e) ↦ rw e (refl, refl, refl, (λ (r, p). ground arith))
  ]

  pub authorize-IsGuarded :
      (rest : Reply)
      → IsGuarded token repository permission (authorize token challenge repository permission rest)
  authorize-IsGuarded rest = elim (Bool-cases (has_permission token repository permission)) [
    | inl allowed ↦ inl allowed
    | inr denied ↦ inr (elim (Bool-cases token.validated_token) [
      | inl valid ↦ rw (denied, valid) (refl, refl, refl, (λ (r, p). ground arith))
      | inr anonymous ↦ rw anonymous challenge-IsRefused
    ])
  ]

  pub authorize_disk-IsGuarded :
      (disk : Disk) (rest : Disk × Reply)
      → (has_permission token repository permission ≡ true)
        ⊎ (((authorize_disk token challenge repository permission disk rest).0 ≡ disk)
            × IsRefused (authorize_disk token challenge repository permission disk rest).1)
  authorize_disk-IsGuarded disk rest =
      elim (Bool-cases (has_permission token repository permission)) [
        | inl allowed ↦ inl allowed
        | inr denied ↦ inr (elim (Bool-cases token.validated_token) [
          | inl valid ↦ rw (denied, valid) (refl, (refl, refl, refl, (λ (r, p). ground arith)))
          | inr anonymous ↦ rw anonymous (refl, challenge-IsRefused)
        ])
      ]

module _ (id : ℕ) (db : Db) (token : Token) (repository : RepositoryName) (digest : Digest)
    (tag : String) (seen written : Bool) where
  -- A request to read a manifest or a blob is refused, with nothing awaited, unless its token has the
  -- permission to pull from the repository, and one to put or delete is refused, with nothing
  -- written, unless its token has the permission to push to it.
  pub registry-IsGuarded :
      (now : ℕ → ℕ) (upload : Manifests.Upload)
      → IsGuarded token repository "pull" (Manifests.get id db token repository seen digest)
        × IsGuarded token repository "pull" (Manifests.get_by_tag id db token repository seen tag)
        × IsGuarded token repository "pull" (Manifests.head id db token repository seen digest)
        × IsGuarded token repository "pull" (Manifests.head_by_tag id db token repository seen tag)
        × IsGuarded token repository "pull" (Blobs.get id db token repository seen digest)
        × IsGuarded token repository "pull" (Blobs.head id db token repository seen digest)
        × IsGuarded token repository "push"
            (Manifests.put id token repository tag written now upload)
        × IsGuarded token repository "push"
            (Manifests.delete id db token repository written (now 0) digest)
        × IsGuarded token repository "push"
            (Manifests.delete_by_tag id db token repository written (now 0) tag)
        × IsGuarded token repository "push"
            (Blobs.delete id db token repository written (now 0) digest)
  unfolding Manifests.head Manifests.head_by_tag Blobs.head Manifests.get Manifests.get_by_tag
      Manifests.put Manifests.delete Manifests.delete_by_tag Blobs.get Blobs.delete
  registry-IsGuarded now upload = (
    authorize-IsGuarded token _ repository "pull" _,
    authorize-IsGuarded token _ repository "pull" _,
    authorize-IsGuarded token _ repository "pull" _,
    authorize-IsGuarded token _ repository "pull" _,
    authorize-IsGuarded token _ repository "pull" _,
    authorize-IsGuarded token _ repository "pull" _,
    authorize-IsGuarded token _ repository "push" _,
    authorize-IsGuarded token _ repository "push" _,
    authorize-IsGuarded token _ repository "push" _,
    authorize-IsGuarded token _ repository "push" _,
  )

-- The handler's answer is guarded, and a refusal leaves the disk as it was.
abbrev pub IsGuardedDisk : Token → RepositoryName → String → Disk → Disk × Reply → Type 0
IsGuardedDisk token repository permission disk (disk', reply) =
    (has_permission token repository permission ≡ true) ⊎ ((disk' ≡ disk) × IsRefused reply)

module _ (hash : Bytes → Digest) (id : ℕ) (db : Db) (token : Token) (repository : RepositoryName)
    (upload_id : String) (digest : Digest) (written : Bool) where
  -- A request to start, continue, finish or delete an upload is refused, with nothing written and the
  -- disk unchanged, unless its token has the permission to push to the repository, and one to ask how
  -- far an upload is unless it has the permission to pull from it.
  pub uploads-IsGuarded :
      (now : ℕ → ℕ) (content_range : Option (ℕ × ℕ)) (mount whole : Option Digest)
      (from : Option RepositoryName) (body : Body) (disk : Disk)
      → IsGuardedDisk token repository "push" disk
          (Uploads.patch token repository upload_id content_range body disk)
        × IsGuardedDisk token repository "pull" disk (Uploads.get token repository upload_id disk)
        × IsGuardedDisk token repository "push" disk
            (Uploads.delete token repository upload_id disk)
        × IsGuardedDisk token repository "push" disk
            (Uploads.put hash id token repository written now upload_id digest body disk)
        × IsGuardedDisk token repository "push" disk (
            Uploads.post hash id token repository written now db upload_id mount from whole body
              disk)
  unfolding Uploads.patch Uploads.get Uploads.delete Uploads.put Uploads.post
  uploads-IsGuarded now content_range mount whole from body disk = (
    authorize_disk-IsGuarded token _ repository "push" disk _,
    authorize_disk-IsGuarded token _ repository "pull" disk _,
    authorize_disk-IsGuarded token _ repository "push" disk _,
    authorize_disk-IsGuarded token _ repository "push" disk _,
    authorize_disk-IsGuarded token _ repository "push" disk _,
  )
