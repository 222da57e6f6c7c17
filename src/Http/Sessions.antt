-- ===== src/Http/Sessions.antt =====
-- The life of an upload: its parts come in order, and what it becomes has the hash that it is stored by.
pub mod Whole
use distribd.Prelude.{
  ℕ, ◌≤◌, ltb, String, Option, none, some, List, [], ◌∷◌, ◌++◌, map, Outcome, Bool, true, false,
  ◌≡◌, refl, arith, subst, ◌⊎◌, inl, inr, Bool-cases, Option-cases, ◌==◌, ==_eq, ==_refl, nat_eq,
  string_eq, length, ap,
}
use distribd.Prelude.Set
use distribd.Prelude.Map
use distribd.Prelude.Map.{lookup-insert}
use distribd.Types.{digest_eq, repository_eq, Digest, RepositoryName}
use distribd.StateMachine.{Db}
use distribd.Token.{Token, has_permission}
use distribd.Http.{Reply, answer, refuse, upload_headers, range_end, range_not_satisfiable}
use distribd.Http.Uploads.{
  Disk, Body, Bytes, upload_part, authorize_disk, set_upload, is_next, patched, patch, get, delete,
  finished, put, start, mount_or, post,
}

abbrev pub concat : List Bytes → Bytes
concat [] = []
concat (chunk ∷ chunks) = chunk ++ concat chunks

pub append_assoc : (xs ys zs : Bytes) → (xs ++ ys) ++ zs ≡ xs ++ (ys ++ zs)
append_assoc [] ys zs = refl
append_assoc (x ∷ xs) ys zs = ap (λ t. x ∷ t) (append_assoc xs ys zs)

pub append_nil : (xs : Bytes) → xs ++ [] ≡ xs
append_nil [] = refl
append_nil (x ∷ xs) = ap (λ t. x ∷ t) (append_nil xs)

pub upload_part-whole :
    (chunks : List Bytes) (file : Bytes)
    → upload_part (map some chunks) file ≡ (file ++ concat chunks, true)
unfolding upload_part
upload_part-whole [] file = ground (arith, append_nil file)
upload_part-whole (chunk ∷ chunks) file =
    ground
      (arith, upload_part-whole chunks (file ++ chunk), append_assoc file chunk (concat chunks))

-- The part has no range, or its range is not empty backwards and starts where the upload ends.
abbrev pub IsNext : Option (ℕ × ℕ) → ℕ → Type 0
IsNext none size = Unit
IsNext (some (first, last)) size = (first ≤ last) × (first ≡ size)

is_next-IsNext :
    (content_range : Option (ℕ × ℕ)) (size : ℕ)
    → ((is_next content_range size ≡ true) × IsNext content_range size)
      ⊎ ((is_next content_range size ≡ false) × (¬ IsNext content_range size))
is_next-IsNext none size = inl (refl, tt)
is_next-IsNext (some (first, last)) size = elim (Bool-cases (ltb last first)) [
  | inl backwards ↦ inr (rw backwards refl, (λ (ordered, same). ground (arith, backwards, ordered)))
  | inr ordered ↦ elim (Bool-cases (first == size)) [
    | inl same ↦ inl (rw (ordered, same) refl, (ground (arith, ordered), ==_eq first size same))
    | inr differ ↦
        inr (rw (ordered, differ) refl, (λ (o, same). ground (arith, differ, same, ==_refl size)))
  ]
]

module _ (token : Token) (repository : RepositoryName) (upload_id : String) where
  pub has_permission-validated :
      has_permission token repository "push" ≡ true → token.validated_token ≡ true
  unfolding has_permission
  has_permission-validated h = ground arith

  module _ (allowed : has_permission token repository "push" ≡ true) (disk : Disk) (file : Bytes)
      (found : Map.lookup upload_id disk.uploads ≡ some file) (content_range : Option (ℕ × ℕ))
      (chunks : List Bytes) where
    pub patch-appends :
        (IsNext content_range (length file)
          × (patch token repository upload_id content_range (map some chunks) disk ≡ (
            set_upload upload_id (file ++ concat chunks) disk,
            answer (record {
              status = 202;
              headers =
                  upload_headers repository upload_id (range_end (length (file ++ concat chunks)));
            }),
          )))
        ⊎ ((¬ IsNext content_range (length file))
            × (patch token repository upload_id content_range (map some chunks) disk
                ≡ (disk, refuse (range_not_satisfiable repository upload_id (length file)))))
    unfolding patch
    patch-appends =
        let valid = has_permission-validated allowed in
        elim (is_next-IsNext content_range (length file)) [
          | inl (next, right) ↦
              inl (right, ground (arith, next, upload_part-whole chunks file, valid))
          | inr (other, wrong) ↦ inr (wrong, ground (arith, other, valid))
        ]

module _ (hash : Bytes → Digest) where
  -- Every blob's file has the hash that it is stored by.
  abbrev pub IsAddressed : Disk → Type 0
  IsAddressed disk =
      (d : Digest) (file : Bytes) → Map.lookup d disk.blobs ≡ some file → hash file ≡ d

  authorized-IsAddressed :
      (token : Token) (challenge : Outcome String) (repository : RepositoryName)
      (permission : String) (disk : Disk) (rest : Disk × Reply)
      → IsAddressed disk
      → IsAddressed rest.0
      → IsAddressed (authorize_disk token challenge repository permission disk rest).0
  authorized-IsAddressed token challenge repository permission disk rest h r =
      elim (Bool-cases token.validated_token) [
        | inr anonymous ↦ rw anonymous h
        | inl valid ↦ elim (Bool-cases (has_permission token repository permission)) [
          | inl allowed ↦ rw (allowed, valid) r
          | inr denied ↦ rw (denied, valid) h
        ]
      ]

  module _ (token : Token) (repository : RepositoryName) (upload_id : String) (disk : Disk)
      (h : IsAddressed disk) where
    patched-IsAddressed :
        (end : Bytes × Bool) → IsAddressed (patched token repository upload_id disk end).0
    patched-IsAddressed (file, false) = h
    patched-IsAddressed (file, true) = h

    patch-IsAddressed :
        (content_range : Option (ℕ × ℕ)) (body : Body)
        → IsAddressed (patch token repository upload_id content_range body disk).0
    unfolding patch
    patch-IsAddressed content_range body =
        authorized-IsAddressed token _ repository "push" disk _ h
          (elim (Option-cases (Map.lookup upload_id disk.uploads)) [
            | inl e ↦ rw e h
            | inr (file, e) ↦ elim (Bool-cases (is_next content_range (length file))) [
              | inl next ↦ rw (e, next) (patched-IsAddressed (upload_part body file))
              | inr other ↦ rw (e, other) h
            ]
          ])

    get-IsAddressed : IsAddressed (get token repository upload_id disk).0
    unfolding get
    get-IsAddressed =
        authorized-IsAddressed token _ repository "pull" disk _ h
          (elim (Option-cases (Map.lookup upload_id disk.uploads)) [
            | inl e ↦ rw e h
            | inr (file, e) ↦ rw e h
          ])

    delete-IsAddressed : IsAddressed (delete token repository upload_id disk).0
    unfolding delete
    delete-IsAddressed =
        authorized-IsAddressed token _ repository "push" disk _ h
          (elim (Option-cases (Map.lookup upload_id disk.uploads)) [
            | inl e ↦ rw e h
            | inr (file, e) ↦ rw e h
          ])

    stored_under :
        (digest : Digest) (file : Bytes)
        → hash file ≡ digest
        → (d : Digest) (f : Bytes) → Map.lookup d (Map.insert digest file disk.blobs) ≡ some f
        → hash f ≡ d
    stored_under digest file same d f e = elim (Bool-cases (digest == d)) [
      | inl own ↦
          let stored = lookup-insert digest d file disk.blobs in
          subst (λ x. hash x ≡ d) {x = file} (ground (arith, stored))
            (cc (same, ==_eq digest d own))
      | inr other ↦ h d f (ground (arith, lookup-insert digest d file disk.blobs))
    ]

    module _ (id : ℕ) (written : Bool) (now : ℕ → ℕ) where
      finished-IsAddressed :
          (digest : Digest) (end : Bytes × Bool)
          → IsAddressed (finished hash id token repository written now upload_id digest disk end).0
      finished-IsAddressed digest (file, false) = h
      finished-IsAddressed digest (file, true) = elim (Bool-cases (hash file == digest)) [
        | inr differ ↦ rw differ h
        | inl same ↦
            rw same (λ d f e. stored_under digest file (==_eq (hash file) digest same) d f e)
      ]

      put-IsAddressed :
          (digest : Digest) (body : Body)
          → IsAddressed (put hash id token repository written now upload_id digest body disk).0
      unfolding put
      put-IsAddressed digest body =
          authorized-IsAddressed token _ repository "push" disk _ h
            (elim (Bool-cases (digest.algo == "sha256")) [
              | inr other ↦ rw other h
              | inl sha ↦ elim (Option-cases (Map.lookup upload_id disk.uploads)) [
                | inl e ↦ rw (sha, e) h
                | inr (file, e) ↦ rw (sha, e) (finished-IsAddressed digest (upload_part body file))
              ]
            ])

      start-IsAddressed :
          (whole : Option Digest) (body : Body)
          → IsAddressed (start hash id token repository written now upload_id whole body disk).0
      start-IsAddressed none body = h
      start-IsAddressed (some digest) body = finished-IsAddressed digest (upload_part body [])

      mount_or-IsAddressed :
          (db : Db) (mount : Option Digest) (from : Option RepositoryName) (rest : Disk × Reply)
          → IsAddressed rest.0
          → IsAddressed (mount_or hash id token repository written now db mount from disk rest).0
      mount_or-IsAddressed db none from rest r = r
      mount_or-IsAddressed db (some mount) none rest r = r
      mount_or-IsAddressed db (some mount) (some from) rest r =
          elim (Bool-cases (from == repository)) [
            | inl same ↦ rw same h
            | inr differ ↦ elim (Bool-cases (has_permission token from "pull")) [
              | inr denied ↦ rw (differ, denied) h
              | inl allowed ↦ elim (Option-cases (Map.lookup mount db.blobs)) [
                | inl e ↦ rw (differ, allowed, e) r
                | inr (blob, e) ↦ elim (Bool-cases (Set.contains blob.repositories from)) [
                  | inl there ↦ rw (differ, allowed, e, there) h
                  | inr missing ↦ rw (differ, allowed, e, missing) r
                ]
              ]
            ]
          ]

      post-IsAddressed :
          (db : Db) (mount whole : Option Digest) (from : Option RepositoryName) (body : Body)
          → IsAddressed
              (post hash id token repository written now db upload_id mount from whole body disk).0
      unfolding post
      post-IsAddressed db mount whole from body =
          authorized-IsAddressed token _ repository "push" disk _ h
            (mount_or-IsAddressed db mount from _ (start-IsAddressed whole body))

      -- No request about an upload ever leaves a blob's file under another digest than its hash.
      pub uploads-IsAddressed :
          (db : Db) (content_range : Option (ℕ × ℕ)) (digest : Digest) (mount whole : Option Digest)
          (from : Option RepositoryName) (body : Body)
          → IsAddressed (patch token repository upload_id content_range body disk).0
            × IsAddressed (get token repository upload_id disk).0
            × IsAddressed (delete token repository upload_id disk).0
            × IsAddressed (put hash id token repository written now upload_id digest body disk).0
            × IsAddressed
                (post hash id token repository written now db upload_id mount from whole body
                  disk).0
      uploads-IsAddressed db content_range digest mount whole from body = (
        patch-IsAddressed content_range body,
        get-IsAddressed,
        delete-IsAddressed,
        put-IsAddressed digest body,
        post-IsAddressed db mount whole from body,
      )
