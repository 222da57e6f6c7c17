-- ===== src/Http/Push/Mirrored.antt =====
-- A pushed manifest on another node: src/registry/manifests/get.rs while the file is not there, the
-- transfer of src/mirror.rs, and the same request after it.
use distribd.Prelude.{
  ℕ, String, Option, some, List, [], ◌∷◌, ok, true, false, ◌≡◌, refl, arith, nat_eq, ==_refl, subst,
  ◌∙◌, Bool, if◌then◌else◌,
}
use distribd.Prelude.Set
use distribd.Prelude.Set.{contains-insert}
use distribd.Prelude.Map
use distribd.Types.{
  digest_eq, repository_eq, tag_key_eq, Digest, RepositoryName, Artifact, RegistryAction,
  manifest_stored,
}
use distribd.StateMachine.{Db, apply_actions}
use distribd.StateMachine.Artifacts.{change}
use distribd.StateMachine.Refinement.{apply_actions-Agrees}
use distribd.Token.{Token, has_permission}
use distribd.Mirror.{manifest, success, internal_user, Download, sources, do_transfer}
use distribd.Mirror.Transfers.{do_transfer-IsVerified}
use distribd.Http.{content_type, content_digest, ok_with, refuse, manifest_not_found}
use distribd.Http.Manifests.{get_by_tag, serve_manifest}
use distribd.Http.Descriptions.{IsPushed}
use distribd.Http.Push.Pull.{authorized, served}

nonempty :
    (locations : List ℕ) (id : ℕ)
    → Set.contains locations id ≡ true
    → Set.is_empty locations ≡ false
unfolding Set.contains
nonempty [] id h = absurd (ground (arith, h))
nonempty (x ∷ locations) id h = refl

module _ (hash : List ℕ → Digest) (choose : List (ℕ × String) → Option (ℕ × String))
    (fetch : ℕ × String → Option Download) (id size : ℕ) (repository : RepositoryName)
    (digest : Digest) (kind tag : String) where
  transferred :
      (now other : ℕ) (db : Db) (m : Artifact) (source : ℕ × String) (download : Download)
      → Map.lookup digest db.manifests ≡ some m
      → Set.contains m.locations id ≡ true
      → Set.contains m.locations other ≡ false
      → choose (sources m.locations db.last_membership.nodes) ≡ some source
      → fetch source ≡ some download
      → hash download.received ≡ digest
      → download.read_back ≡ some download.received
      → download.renamed ≡ true
      → do_transfer hash choose fetch now other db (manifest digest)
        ≡ success (manifest digest) (manifest_stored now digest other internal_user)
  unfolding do_transfer
  transferred now other db m source download found stored absent chosen fetched right back moved =
      rw
        (
          found,
          do_transfer,
          absent,
          nonempty m.locations id stored,
          chosen,
          fetched,
          right,
          ==_refl digest,
          back,
          right,
          ==_refl digest,
          moved,
        )
        refl

  -- the manifest after the transfer's action
  after_transfer :
      (now other : ℕ) (db db' : Db) (m : Artifact)
      → Map.lookup digest db.manifests ≡ some m
      → IsPushed repository id size kind (some m)
      → apply_actions (manifest_stored now digest other internal_user ∷ []) db ≡ ok db'
      → IsPushed repository other size kind (Map.lookup digest db'.manifests)
        × ((t : String)
            → Map.lookup (record { repository = repository; tag = t }) db'.tags
              ≡ Map.lookup (record { repository = repository; tag = t }) db.tags)
  unfolding change
  after_transfer now other db db' m found (mounted, stored, measured, typed) e =
      let agrees =
        apply_actions-Agrees (manifest_stored now digest other internal_user ∷ []) db e in
      (
        subst (IsPushed repository other size kind)
            {x = some (record m { updated = now; locations = Set.insert other m.locations })}
            (ground (arith, agrees.at_manifest digest, found, ==_refl digest))
            (
              mounted,
              ground (arith, contains-insert other other m.locations, ==_refl other),
              measured,
              typed,
            ),
        (λ t. agrees.at_tag (record { repository = repository; tag = t })),
      )

  -- The request waits, and is then answered by what is in place of the file.
  awaited :
      (other : ℕ) (db : Db) (reader : Token) (m : Artifact) (is_file : Bool)
      → Map.lookup digest db.manifests ≡ some m
      → IsPushed repository id size kind (some m)
      → Set.contains m.locations other ≡ false
      → serve_manifest other db reader repository is_file digest
        ≡ record (if is_file
            then ok_with (content_type kind ∷ content_digest digest ∷ [])
            else refuse manifest_not_found) { waited = true }
  awaited other db reader m is_file found (mounted, stored, measured, typed) absent =
      rw (found, serve_manifest, mounted, absent, measured, typed) refl

  -- Let a manifest be in the database as a push on one node leaves it. On a node that lacks it, a
  -- request for its tag, by a token that may pull, waits, however the wait ends, and is then answered
  -- with the manifest if its file is in place, and with 404 if it is not. If the source that this
  -- node's mirror chooses sends bytes with the manifest's hash, and the disk gives them back and moves
  -- them in place, the transfer succeeds; its action, applied to that database, goes through, and such
  -- a request is then answered with nothing to wait for, with the manifest, its file being in place.
  pub get_by_tag-do_transfer :
      (now other : ℕ) (db : Db) (m : Artifact) (source : ℕ × String) (download : Download)
      (reader : Token) (is_file : Bool)
      → Map.lookup digest db.manifests ≡ some m
      → IsPushed repository id size kind (some m)
      → Map.lookup (record { repository = repository; tag = tag }) db.tags ≡ some digest
      → Set.contains m.locations other ≡ false
      → choose (sources m.locations db.last_membership.nodes) ≡ some source
      → fetch source ≡ some download
      → hash download.received ≡ digest
      → download.read_back ≡ some download.received
      → download.renamed ≡ true
      → has_permission reader repository "pull" ≡ true
      → (get_by_tag other db reader repository is_file tag
          ≡ record (if is_file
              then ok_with (content_type kind ∷ content_digest digest ∷ [])
              else refuse manifest_not_found) { waited = true })
        × ((action : RegistryAction) × (db' : Db) × (do_transfer hash choose fetch now other db
                (manifest digest)
              ≡ success (manifest digest) action)
            × (apply_actions (action ∷ []) db ≡ ok db')
            × (get_by_tag other db' reader repository true tag
                ≡ ok_with (content_type kind ∷ content_digest digest ∷ [])))
  unfolding get_by_tag
  get_by_tag-do_transfer now other db m source download reader is_file found pushed tagged absent
        chosen fetched right back moved pulls =
      let did =
        transferred now other db m source download found pushed.1 absent chosen fetched right back
          moved in
      let (verified, (db', e, here)) =
        do_transfer-IsVerified hash choose fetch now other db (manifest digest) (manifest digest)
          (manifest_stored now digest other internal_user) did in
      let (pushed', tags) = after_transfer now other db db' m found pushed e in
      (
        authorized reader _ repository "pull" _ pulls
            ∙ rw tagged (awaited other db reader m is_file found pushed absent),
        (
          manifest_stored now digest other internal_user,
          db',
          did,
          e,
          authorized reader _ repository "pull" _ pulls
              ∙ rw (tags tag ∙ tagged)
                  (served other db' reader repository digest size kind pushed'),
        ),
      )
