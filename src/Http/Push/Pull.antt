-- ===== src/Http/Push/Pull.antt =====
-- A push, and the pull that follows it.
use distribd.Prelude.{
  ℕ, String, Option, some, List, [], ◌∷◌, ok, Bool, true, false, ◌≡◌, refl, arith, inl, inr, nat_eq,
  Option-cases, subst, ◌∙◌, Outcome,
}
use distribd.Prelude.Map
use distribd.Types.{digest_eq, repository_eq, tag_key_eq, Digest, RepositoryName}
use distribd.StateMachine.{Db, apply_actions}
use distribd.Token.{Token, has_permission}
use distribd.Token.Permissions.{has_permission-validated}
use distribd.Management.{Unstamped, stamp}
use distribd.Extractor.{Manifest, Extraction, extract, done}
use distribd.Extractor.Allowed.{Drains, extract-Describes}
use distribd.Http
use distribd.Http.{Reply, authorize, content_type, content_digest, manifest_location, ok_with}
use distribd.Http.Manifests.{put_actions, Upload, put, get_by_tag, head_by_tag, serve_manifest}
use distribd.Network.{get_manifest}
use distribd.Http.Descriptions.{IsPushed}
use distribd.Http.Push.{apply_actions-pushed_actions}

abbrev pub upload_of : ℕ → Digest → String → (ℕ → ℕ) → List Unstamped → Upload
upload_of size digest kind clock acts = record {
  stored = true;
  size = some size;
  hash = some digest;
  content_type = some kind;
  extracted = some (stamp clock 0 acts);
  renamed = true;
}

module _ (id : ℕ) (db : Db) (token : Token) (repository : RepositoryName) where
  pub served :
      (digest : Digest) (size : ℕ) (kind : String)
      → IsPushed repository id size kind (Map.lookup digest db.manifests)
      → serve_manifest id db token repository true digest
        ≡ ok_with (content_type kind ∷ content_digest digest ∷ [])
  served digest size kind p = elim (Option-cases (Map.lookup digest db.manifests)) [
    | inl e ↦ absurd (ground (arith, p, e))
    | inr (m, e) ↦
        let (mounted, stored, measured, typed) = subst (IsPushed repository id size kind) e p in
        rw (e, serve_manifest, mounted, stored, measured, typed) refl
  ]

sent :
    (id : ℕ) (db : Db) (digest : Digest) (size : ℕ) (kind : String) (repository : RepositoryName)
    → IsPushed repository id size kind (Map.lookup digest db.manifests)
    → get_manifest id db true digest ≡ ok_with (content_type kind ∷ content_digest digest ∷ [])
unfolding get_manifest
sent id db digest size kind repository p = elim (Option-cases (Map.lookup digest db.manifests)) [
  | inl e ↦ absurd (ground (arith, p, e))
  | inr (m, e) ↦
      let (mounted, stored, measured, typed) = subst (IsPushed repository id size kind) e p in
      rw (e, get_manifest, stored, measured, typed) refl
]

pub authorized :
    (token : Token) (challenge : Outcome String) (repository : RepositoryName) (permission : String)
    (rest : Reply)
    → has_permission token repository permission ≡ true
    → authorize token challenge repository permission rest ≡ rest
authorized token challenge repository permission rest h =
    rw (h, has_permission-validated token repository permission h) refl

module _ (from_str : String → Option Manifest) (is_valid : String → String → Bool)
    (read : Digest → Option String) (drain : List Extraction → List Extraction) (seen : Db)
    (repository : RepositoryName) (digest : Digest) (kind : String) (id size : ℕ) (clock : ℕ → ℕ)
    (now : ℕ → ℕ) (token reader : Token) (tag : String) where
  -- A push by a token that may push, of a text whose analysis succeeds, is answered with 201, submits
  -- one transaction and queues one event, of this tag and digest. Applied to whatever database, the transaction goes through, and a token
  -- that may pull is then served the manifest by its tag on this node, with nothing to wait for, under
  -- the pushed digest and with the pushed type, the file being there; so is the mirror of another node
  -- that asks for the digest.
  pub put-get_by_tag :
      Drains drain
      → (text : String) (acts : List Unstamped)
      → extract from_str is_valid read drain seen repository digest kind (some text)
        ≡ some (done acts)
      → has_permission token repository "push" ≡ true
      → has_permission reader repository "pull" ≡ true
      → (put id token repository tag true now (upload_of size digest kind clock acts) ≡ record {
        submitted =
            put_actions id now token.sub repository tag digest size (stamp clock 0 acts) ∷ [];
        events =
            record { repository = repository; digest = digest; content_type = kind; tag = tag }
            ∷ [];
        waited = false;
        result = ok (
            Http.done (record {
              status = 201;
              headers = manifest_location repository digest ∷ content_digest digest ∷ [];
            }));
      })
        × ((db : Db)
            → (db' : Db) × (apply_actions
                  (put_actions id now token.sub repository tag digest size (stamp clock 0 acts))
                  db
                ≡ ok db')
              × (get_by_tag id db' reader repository true tag
                  ≡ ok_with (content_type kind ∷ content_digest digest ∷ []))
              × (head_by_tag id db' reader repository true tag
                  ≡ ok_with (content_type kind ∷ content_digest digest ∷ []))
              × (get_manifest id db' true digest
                  ≡ ok_with (content_type kind ∷ content_digest digest ∷ [])))
  unfolding put get_by_tag head_by_tag
  put-get_by_tag drains text acts analysed pushes pulls =
      let (described, starts, usable) =
        extract-Describes from_str is_valid read drain seen repository digest kind drains text acts
          analysed in
      (
        authorized token _ repository "push" _ pushes,
        (λ db.
            let (db', e, pushed) =
              apply_actions-pushed_actions seen repository digest kind id size clock now token.sub
                tag acts described starts db in
            (
              db',
              e,
              authorized reader _ repository "pull" _ pulls
                  ∙ rw pushed.at_tag
                      (served id db' reader repository digest size kind pushed.at_digest),
              authorized reader _ repository "pull" _ pulls
                  ∙ rw pushed.at_tag
                      (served id db' reader repository digest size kind pushed.at_digest),
              sent id db' digest size kind repository pushed.at_digest,
            )),
      )
