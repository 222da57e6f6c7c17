-- ===== src/Http.antt =====
-- What the handlers of src/registry share: their errors with the responses of errors.rs, the answer of
-- `GET /v2/` and `HEAD /v2/`, and the two checks of the token at the start of each handler. A header
-- is its value, not its text, and bodies are left out.
pub mod Manifests
pub mod Blobs
pub mod Uploads
pub mod Authorization
pub mod Effects
pub mod Sessions
pub mod Descriptions
pub mod Push
pub mod Tags
use distribd.Prelude.{
  ℕ, ◌-◌, String, List, [], ◌∷◌, ◌++◌, Outcome, ok, panic, if◌then◌else◌, Bool, true, false, not,
  ltb,
}
use distribd.Types.{Digest, RepositoryName, RegistryAction}
use distribd.Token.{Token, has_permission, get_general_challenge}
use distribd.Webhook.{Event}

pub data Header : Type 0 where
  www_authenticate : (challenge : String) → Header
  docker_distribution_api_version : String → Header
  manifest_location blob_location : RepositoryName → Digest → Header
  upload_location : RepositoryName → (upload_id : String) → Header
  content_digest : Digest → Header
  content_type : String → Header
  content_length : ℕ → Header
  -- `0-<end>`
  range : (end : ℕ) → Header
  blob_upload_session_id docker_upload_uuid : (upload_id : String) → Header

pub record Response : Type 0 where
  pub status : ℕ
  pub headers : List Header

pub data RegistryError : Type 0 where
  must_authenticate : (challenge : String) → RegistryError
  access_denied repository_not_found manifest_not_found manifest_invalid digest_invalid :
      RegistryError
  blob_not_found upload_not_found upload_invalid : RegistryError
  range_not_satisfiable : RepositoryName → (upload_id : String) → (size : ℕ) → RegistryError

-- `if size > 0 { size - 1 } else { 0 }`
abbrev pub range_end : ℕ → ℕ
range_end size = if ltb 0 size then size - 1 else 0

abbrev pub upload_headers : RepositoryName → String → ℕ → List Header
upload_headers repository upload_id end =
    upload_location repository upload_id
    ∷ range end
    ∷ content_length 0
    ∷ blob_upload_session_id upload_id
    ∷ docker_upload_uuid upload_id
    ∷ []

unfoldable pub error_response : RegistryError → Response
error_response (must_authenticate challenge) = record {
  status = 401;
  headers = www_authenticate challenge ∷ [];
}
error_response access_denied = record { status = 403; headers = [] }
error_response repository_not_found = record { status = 404; headers = [] }
error_response manifest_not_found = record { status = 404; headers = [] }
error_response manifest_invalid = record { status = 400; headers = [] }
error_response digest_invalid = record { status = 400; headers = [] }
error_response blob_not_found = record { status = 404; headers = [] }
error_response upload_not_found = record { status = 404; headers = [] }
error_response upload_invalid = record { status = 400; headers = [] }
error_response (range_not_satisfiable repository upload_id size) = record {
  status = 416;
  headers = upload_headers repository upload_id (range_end size);
}

-- `Result<HttpResponse, RegistryError>`
pub data Result : Type 0 where
  done : Response → Result
  failed : RegistryError → Result

-- What a handler does: the writes that it submits, in order, the events that it queues for the
-- webhooks, whether it awaits a download, and how it ends.
pub record Reply : Type 0 where
  pub submitted : List (List RegistryAction)
  pub events : List Event
  pub waited : Bool
  pub result : Outcome Result

abbrev pub refuse : RegistryError → Reply
refuse error = record { submitted = []; events = []; waited = false; result = ok (failed error) }

abbrev pub answer : Response → Reply
answer response = record {
  submitted = [];
  events = [];
  waited = false;
  result = ok (done response);
}

abbrev pub ok_with : List Header → Reply
ok_with headers = answer (record { status = 200; headers = headers })

-- building the challenge may panic
abbrev pub challenge_with : Outcome String → Reply
challenge_with (ok challenge) = refuse (must_authenticate challenge)
challenge_with panic = record { submitted = []; events = []; waited = false; result = panic }

abbrev pub authorize : Token → Outcome String → RepositoryName → String → Reply → Reply
authorize token challenge repository permission rest =
    if not token.validated_token
    then challenge_with challenge
    else if not (has_permission token repository permission)
    then refuse access_denied
    else rest

-- `if !app.consistent_write(actions).await { return Err(error) }`, `written` being its answer
abbrev pub write_or : Bool → List RegistryAction → RegistryError → Response → Reply
write_or written actions error response = record {
  submitted = actions ∷ [];
  events = [];
  waited = false;
  result = ok (if written then done response else failed error);
}

-- `get` and `head` of the API's root
unfoldable pub get_root : Token → Reply
get_root token =
    if not token.validated_token
    then challenge_with (get_general_challenge token)
    else answer
        (record { status = 200; headers = docker_distribution_api_version "registry/2.0" ∷ [] })
