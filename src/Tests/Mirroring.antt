-- ===== src/Tests/Mirroring.antt =====
-- The mirror.
use distribd.Prelude.{
  nat_eq, true, ℕ, String, Option, none, some, List, [], ◌∷◌, ok, false, ◌≡◌, refl, str_dec,
}
use distribd.Prelude.Set
use distribd.Prelude.Map
use distribd.Types.{
  repository_eq, tag_key_eq, digest_eq, TagKey-discrete, RepositoryName-discrete, Artifact, Digest,
  Digest-discrete, RegistryAction, blob_stored,
}
use distribd.StateMachine.{Db, apply_actions}
use distribd.Mirror.{
  blob, manifest, success, Look, Download, sources, entry_of, do_transfer, internal_user,
  mirror_all,
}
use distribd.Mirror.Passes.{CanFetch, IsPass, mirror_all-IsPass}
use distribd.Mirror.Transfers.{IsHere, IsVerified, do_transfer-IsVerified}
use distribd.Token.{Token, has_permission, has_access}
use distribd.Http.{content_type, content_digest, ok_with, refuse, manifest_not_found}
use distribd.Http.Manifests.{get_by_tag}
use distribd.Http.Push.Mirrored.{get_by_tag-do_transfer}
use native.Mathlib.Decide
use distribd.Tests.{with_layer, layer, library, latest}

abbrev with_peer : Db
with_peer = record with_layer {
  last_membership = record { log_id = none; nodes = (1, "one:8080") ∷ [] };
}

abbrev hash : List ℕ → Digest
hash file = layer

abbrev choose : List (ℕ × String) → Option (ℕ × String)
choose [] = none
choose (source ∷ more) = some source

abbrev fetch : ℕ × String → Option Download
fetch source = some (record { received = 7 ∷ []; read_back = some (7 ∷ []); renamed = true })

abbrev logged : RegistryAction
logged = blob_stored 9 layer 2 internal_user

layer_mirrored :
    do_transfer hash choose fetch 9 2 with_peer (blob layer) ≡ success (blob layer) logged
unfolding do_transfer sources Map.lookup Set.contains Digest-discrete str_dec
    native.Mathlib.Decide.ℕ_discrete
layer_mirrored = refl

do_transfer-IsVerified_example :
    IsVerified hash choose fetch 2 with_peer (blob layer)
    × ((db' : Db) × (apply_actions (logged ∷ []) with_peer ≡ ok db')
        × IsHere 2 (entry_of db' (blob layer)))
do_transfer-IsVerified_example =
    do_transfer-IsVerified hash choose fetch 9 2 with_peer (blob layer) (blob layer) logged
      layer_mirrored

-- a manifest as a push leaves it on node 1
abbrev manifest_one : Artifact
manifest_one = record {
  size = some 20;
  content_type = some "kind";
  dependencies = some [];
  repositories = library ∷ [];
  locations = 1 ∷ [];
  created = 5;
  updated = 6;
}

abbrev pushed : Db
pushed = record with_peer { manifests = (layer, manifest_one) ∷ []; tags = (latest, layer) ∷ [] }

abbrev bob : Token
bob = record {
  access = record { repository = library; permissions = "pull" ∷ [] } ∷ [];
  sub = "bob";
  validated_token = true;
  admin = false;
  realm = none;
  service = none;
}

manifest_found : Map.lookup layer pushed.manifests ≡ some manifest_one
unfolding Map.lookup Digest-discrete str_dec
manifest_found = refl

tag_found : Map.lookup latest pushed.tags ≡ some layer
unfolding Map.lookup TagKey-discrete RepositoryName-discrete str_dec
tag_found = refl

one_has : Set.contains manifest_one.repositories library ≡ true
unfolding Set.contains RepositoryName-discrete str_dec
one_has = refl

two_lacks :
    (Set.contains manifest_one.locations 1 ≡ true) × (Set.contains manifest_one.locations 2 ≡ false)
unfolding Set.contains native.Mathlib.Decide.ℕ_discrete
two_lacks = (refl, refl)

one_chosen :
    choose (sources manifest_one.locations pushed.last_membership.nodes) ≡ some (1, "one:8080")
unfolding sources Set.contains native.Mathlib.Decide.ℕ_discrete
one_chosen = refl

bob_pulls : has_permission bob library "pull" ≡ true
unfolding has_permission has_access Set.contains RepositoryName-discrete str_dec
bob_pulls = refl

get_by_tag-do_transfer_example :
    (get_by_tag 2 pushed bob library false "latest"
      ≡ record (refuse manifest_not_found) { waited = true })
    × ((action : RegistryAction) × (db' : Db) × (do_transfer hash choose fetch 9 2 pushed
            (manifest layer)
          ≡ success (manifest layer) action)
        × (apply_actions (action ∷ []) pushed ≡ ok db')
        × (get_by_tag 2 db' bob library true "latest"
            ≡ ok_with (content_type "kind" ∷ content_digest layer ∷ [])))
get_by_tag-do_transfer_example =
    get_by_tag-do_transfer hash choose fetch 1 20 library layer "kind" "latest" 9 2 pushed
      manifest_one (1, "one:8080")
      (record { received = 7 ∷ []; read_back = some (7 ∷ []); renamed = true }) bob false
      manifest_found (one_has, two_lacks.0, refl, refl) tag_found two_lacks.1 one_chosen refl refl
      refl refl bob_pulls

abbrev look : Look
look = record { request = blob layer; db = with_peer; choose = choose; fetch = fetch; now = 9 }

mirror_all-IsPass_example : IsPass hash 2 (look ∷ []) (mirror_all hash 2 (look ∷ []))
mirror_all-IsPass_example = mirror_all-IsPass hash 2 (look ∷ [])

-- the pass can fetch the layer, and submits one transaction
look-CanFetch : CanFetch hash 2 look
unfolding sources Map.lookup Set.contains Digest-discrete str_dec native.Mathlib.Decide.ℕ_discrete
look-CanFetch = record {
  artifact = _;
  source = (1, "one:8080");
  download = record { received = 7 ∷ []; read_back = some (7 ∷ []); renamed = true };
  file = 7 ∷ [];
  known = refl;
  absent = refl;
  held = refl;
  chosen = refl;
  fetched = refl;
  right = refl;
  back = refl;
  right_file = refl;
  moved = refl;
}

layer_submitted : mirror_all hash 2 (look ∷ []) ≡ (logged ∷ []) ∷ []
unfolding mirror_all do_transfer sources Map.lookup Set.contains Digest-discrete str_dec
    native.Mathlib.Decide.ℕ_discrete
layer_submitted = refl
