-- ===== src/Tests/Web.antt =====
-- Tokens and handlers.
use distribd.Prelude.{
  ◌==◌, List, ℕ, String, none, some, [], ◌∷◌, ok, ◌≡◌, refl, arith, map, Option, true, false, head,
  str_dec, string_eq, ==_refl,
}
use distribd.Prelude.Set
use distribd.Prelude.Map
use distribd.Types.{digest_eq, repository_eq, Digest, RepositoryName-discrete}
use distribd.Token.{
  Access, Token, ready, TokenServer, Claims, from_request, has_permission, has_access,
}
use distribd.Token.Permissions.{Grants, IsAuthenticated, has_permission-from_request}
use distribd.Http.Manifests
use distribd.Http.Blobs
use distribd.Http.Uploads.{Disk, Bytes, patch, get, delete, put, post}
use distribd.Http.Authorization.{IsGuarded, IsGuardedDisk, registry-IsGuarded, uploads-IsGuarded}
use distribd.Http.Sessions.Whole.{Part, AreNext, sent, IsEnded, put-IsEnded}
use distribd.Http.Sessions.{IsAddressed, uploads-IsAddressed}
use native.Mathlib.Decide
use distribd.Tests.{with_layer, layer, other, library}

abbrev server : TokenServer
server = record { realm = "https://auth"; service = "registry"; issuer = "auth" }

abbrev pusher : Access
pusher = record { repository = library; permissions = "push" ∷ [] }

abbrev claims : Claims
claims = record { subject = some "alice"; access = pusher ∷ [] }

-- accepts one text
abbrev verify_token : TokenServer → String → Option Claims
verify_token config text = some claims

abbrev alice : Token
alice = record {
  access = pusher ∷ [];
  sub = "alice";
  validated_token = true;
  admin = false;
  realm = some "https://auth";
  service = some "registry";
}

alice_ready : from_request verify_token (some server) (some (some "Bearer xyz")) ≡ ok (ready alice)
unfolding from_request native.Mathlib.Decide.ℕ_discrete
alice_ready = refl

alice_pushes : has_permission alice library "push" ≡ true
unfolding has_permission has_access Set.contains RepositoryName-discrete str_dec
alice_pushes = refl

has_permission-from_request_example :
    (text : String) × (c : Claims) × (some (some "Bearer xyz") ≡ some (some text))
    × IsAuthenticated verify_token server text c
    × Grants c.access library "push"
has_permission-from_request_example =
    has_permission-from_request verify_token server (some (some "Bearer xyz")) alice library "push"
      alice_ready alice_pushes

alice-IsAuthenticated : IsAuthenticated verify_token server "Bearer xyz" claims
unfolding native.Mathlib.Decide.ℕ_discrete
alice-IsAuthenticated = record {
  scheme = "Bearer";
  bytes = "xyz";
  subject = "alice";
  parts = refl;
  bearer = refl;
  verified = refl;
  named = refl;
}

pusher-Grants : Grants (pusher ∷ []) library "push"
unfolding Set.contains str_dec
pusher-Grants = (pusher, head refl, ==_refl library, refl)

abbrev nobody : Token
nobody = record {
  access = [];
  sub = "anonymous";
  validated_token = false;
  admin = false;
  realm = some "https://auth";
  service = some "registry";
}

nobody_ready : from_request verify_token (some server) none ≡ ok (ready nobody)
unfolding from_request
nobody_ready = refl

abbrev ticking : ℕ → ℕ
ticking k = k

abbrev manifest_upload : Manifests.Upload
manifest_upload = record {
  stored = true;
  size = some 3;
  hash = some other;
  content_type = some "application/json";
  extracted = some [];
  renamed = true;
}

registry-IsGuarded_example :
    IsGuarded nobody library "pull" (Manifests.get 1 with_layer nobody library true layer)
    × IsGuarded nobody library "pull"
        (Manifests.get_by_tag 1 with_layer nobody library true "latest")
    × IsGuarded nobody library "pull" (Manifests.head 1 with_layer nobody library true layer)
    × IsGuarded nobody library "pull"
        (Manifests.head_by_tag 1 with_layer nobody library true "latest")
    × IsGuarded nobody library "pull" (Blobs.get 1 with_layer nobody library true layer)
    × IsGuarded nobody library "pull" (Blobs.head 1 with_layer nobody library true layer)
    × IsGuarded nobody library "push"
        (Manifests.put 1 nobody library "latest" true ticking manifest_upload)
    × IsGuarded nobody library "push" (Manifests.delete 1 with_layer nobody library true 0 layer)
    × IsGuarded nobody library "push"
        (Manifests.delete_by_tag 1 with_layer nobody library true 0 "latest")
    × IsGuarded nobody library "push" (Blobs.delete 1 with_layer nobody library true 0 layer)
registry-IsGuarded_example =
    registry-IsGuarded 1 with_layer nobody library layer "latest" true true ticking manifest_upload

abbrev hash : Bytes → Digest
hash file = layer

abbrev disk : Disk
disk = record { uploads = ("u1", 1 ∷ 2 ∷ []) ∷ []; blobs = (layer, 9 ∷ []) ∷ [] }

uploads-IsGuarded_example :
    IsGuardedDisk nobody library "push" disk (patch nobody library "u1" none [] disk)
    × IsGuardedDisk nobody library "pull" disk (get nobody library "u1" disk)
    × IsGuardedDisk nobody library "push" disk (delete nobody library "u1" disk)
    × IsGuardedDisk nobody library "push" disk
        (put hash 1 nobody library true ticking "u1" layer [] disk)
    × IsGuardedDisk nobody library "push" disk
        (post hash 1 nobody library true ticking with_layer "u1" none none none [] disk)
uploads-IsGuarded_example =
    uploads-IsGuarded hash 1 with_layer nobody library "u1" layer true ticking none none none none
      [] disk

disk-IsAddressed : IsAddressed hash disk
unfolding Map.lookup
disk-IsAddressed d file e = ground arith

uploads-IsAddressed_example :
    IsAddressed hash (patch alice library "u1" none [] disk).0
    × IsAddressed hash (get alice library "u1" disk).0
    × IsAddressed hash (delete alice library "u1" disk).0
    × IsAddressed hash (put hash 1 alice library true ticking "u1" layer [] disk).0
    × IsAddressed hash
        (post hash 1 alice library true ticking with_layer "u1" none none none [] disk).0
uploads-IsAddressed_example =
    uploads-IsAddressed hash alice library "u1" disk disk-IsAddressed 1 true ticking with_layer none
      layer none none none []

-- an upload of two parts, the second of which says where it belongs
abbrev parts : List Part
parts = (none, (1 ∷ 2 ∷ []) ∷ []) ∷ (some (2, 3), (3 ∷ []) ∷ (4 ∷ []) ∷ []) ∷ []

parts-AreNext : AreNext parts []
parts-AreNext = (tt, ((ground arith, refl), tt))

by_sha256 : (layer.algo == "sha256") ≡ true
unfolding str_dec
by_sha256 = refl

put-IsEnded_example :
    IsEnded alice library "u2" alice_pushes hash 1 true ticking with_layer layer
      (1 ∷ 2 ∷ 3 ∷ 4 ∷ 5 ∷ [])
      disk
      (put hash 1 alice library true ticking "u2" layer
        (map some ((5 ∷ []) ∷ []))
        (sent alice library "u2" alice_pushes hash 1 true ticking with_layer parts disk))
put-IsEnded_example =
    put-IsEnded alice library "u2" alice_pushes hash 1 true ticking with_layer parts ((5 ∷ []) ∷ [])
      layer disk parts-AreNext by_sha256
