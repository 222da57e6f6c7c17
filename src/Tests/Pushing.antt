-- ===== src/Tests/Pushing.antt =====
-- The analysis of a manifest, and its push.
use distribd.Prelude.{
  ℕ, String, none, some, [], ◌∷◌, ok, ◌≡◌, refl, Option, List, true, false, str_dec, string_eq, All,
  Option-discrete,
}
use distribd.Prelude.Set
use distribd.Prelude.Map
use distribd.Types.{
  digest_eq, repository_eq, Digest, Digest-discrete, RepositoryName-discrete, blob_info,
  manifest_info,
}
use distribd.StateMachine.{Db, apply_actions}
use distribd.Token.{Token, has_permission, has_access}
use distribd.Management.{Unstamped, stamp}
use distribd.Extractor.{
  extraction_eq, Extraction-discrete, Manifest, distribution_manifest_v1, extract, extract_one,
  done, references, visit, visit_all, rounds, Analysis,
}
use distribd.Extractor.Ends.{extract-ends}
use distribd.Extractor.Allowed.{Describes, StartsWithInfo, AreUsable, extract-Describes}
use distribd.Http
use distribd.Http.{content_type, content_digest, manifest_location, ok_with}
use distribd.Http.Manifests.{put, put_actions, get_by_tag, head_by_tag}
use distribd.Network.{get_manifest}
use distribd.Http.Push.Pull.{upload_of, put-get_by_tag}
use native.Mathlib.Decide
use distribd.Tests.{with_layer, layer, other, library}

-- every text is a manifest of the first version, with one layer
abbrev parsed : String → Option Manifest
parsed text = some (distribution_manifest_v1 (layer ∷ []))

abbrev unread : Digest → Option String
unread digest = none

abbrev kind : String
kind = "application/vnd.docker.distribution.manifest.v1+json"

abbrev analysed : List Unstamped
analysed =
    (λ now. manifest_info now other (layer ∷ []) kind)
    ∷ (λ now. blob_info now layer [] "application/octet-string")
    ∷ []

analysed_all :
    extract parsed (λ k t. true) unread (λ s. s) with_layer library other kind (some "{}")
    ≡ some (done analysed)
unfolding extract rounds visit visit_all references Set.contains Set.insert Set.extend Map.lookup
    str_dec Digest-discrete RepositoryName-discrete Extraction-discrete Option-discrete
    native.Mathlib.Decide.ℕ_discrete
analysed_all = refl

extract-ends_example :
    (result : Analysis (List Unstamped)) × (extract parsed
        (λ k t. true)
        unread
        (λ s. s)
        with_layer
        library
        other
        kind
        (some "{}")
      ≡ some result)
extract-ends_example =
    extract-ends parsed (λ k t. true) unread (λ s. s) with_layer library other kind (some "{}")

extract-Describes_example :
    All (λ act. (t : ℕ) → Describes with_layer library other kind (act t)) analysed
    × StartsWithInfo other kind analysed
    × AreUsable parsed
        (λ k t. true)
        unread
        (λ s. s)
        with_layer
        library
        other
        kind
        (extract_one parsed "{}")
extract-Describes_example =
    extract-Describes parsed (λ k t. true) unread (λ s. s) with_layer library other kind
      (λ s e. refl) "{}" analysed analysed_all

abbrev alice : Token
alice = record {
  access = record { repository = library; permissions = "push" ∷ "pull" ∷ [] } ∷ [];
  sub = "alice";
  validated_token = true;
  admin = false;
  realm = some "https://auth";
  service = some "registry";
}

may_push : has_permission alice library "push" ≡ true
unfolding has_permission has_access Set.contains RepositoryName-discrete str_dec
may_push = refl

may_pull : has_permission alice library "pull" ≡ true
unfolding has_permission has_access Set.contains RepositoryName-discrete str_dec
may_pull = refl

put-get_by_tag_example :
    (put 1 alice library "latest" true (λ k. k) (upload_of 20 other kind (λ k. k) analysed)
      ≡ record {
        submitted =
            put_actions 1 (λ k. k) "alice" library "latest" other 20 (stamp (λ k. k) 0 analysed)
            ∷ [];
        events =
            record { repository = library; digest = other; content_type = kind; tag = "latest" }
            ∷ [];
        waited = false;
        result = ok (
            Http.done (record {
              status = 201;
              headers = manifest_location library other ∷ content_digest other ∷ [];
            }));
      })
    × ((db : Db)
        → (db' : Db) × (apply_actions
              (put_actions 1 (λ k. k) "alice" library "latest" other 20 (stamp (λ k. k) 0 analysed))
              db
            ≡ ok db')
          × (get_by_tag 1 db' alice library true "latest"
              ≡ ok_with (content_type kind ∷ content_digest other ∷ []))
          × (head_by_tag 1 db' alice library true "latest"
              ≡ ok_with (content_type kind ∷ content_digest other ∷ []))
          × (get_manifest 1 db' true other
              ≡ ok_with (content_type kind ∷ content_digest other ∷ [])))
put-get_by_tag_example =
    put-get_by_tag parsed (λ k t. true) unread (λ s. s) with_layer library other kind 1 20 (λ k. k)
      (λ k. k) alice alice "latest" (λ s e. refl) "{}" analysed analysed_all may_push may_pull
