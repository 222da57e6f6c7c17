-- ===== src/Token.antt =====
-- src/extractors/token.rs: how a request becomes a `Token`, what a token permits, and the challenges
-- for clients. `verify_token` of jwt_simple, with the options that the code gives it, is the
-- parameter `verify_token`: the claims of a text that it accepts. A set of permissions is a list.
pub mod Permissions
use distribd.Prelude.{
  ℕ, ◌+◌, String, Option, none, some, List, [], ◌∷◌, Outcome, ok, panic, unwrap, ◌>>=◌,
  if◌then◌else◌, Bool, true, false, not, ◌&&◌, ◌==◌, ltb, nat_eq, string_eq,
}
use distribd.Prelude.Set
use distribd.Types.{repository_eq, RepositoryName}
use Prim.Native.Char.{Char, code}
use Prim.Native.String.{len, char_at, slice, ◌++◌}
use text.Mathlib.Text.{find?}

pub record Access : Type 0 where
  pub repository : RepositoryName
  pub permissions : List String

pub record Token : Type 0 where
  pub access : List Access
  pub sub : String
  pub validated_token : Bool
  pub admin : Bool
  pub realm : Option String
  pub service : Option String

pub data TokenError : Type 0 where
  missing invalid : TokenError

-- `Ready<Result<Token, TokenError>>`
pub data Extracted : Type 0 where
  ready : Token → Extracted
  refused : TokenError → Extracted

-- the fields of `TokenConfig` that are used here
pub record TokenServer : Type 0 where
  pub realm : String
  pub service : String
  pub issuer : String

-- the claims that the code reads
pub record Claims : Type 0 where
  pub subject : Option String
  pub access : List Access

-- `header.split_once(' ')`
abbrev pub split_once : String → Option (String × String)
split_once header = elim (find? header " ") [
  | none ↦ none
  | some i ↦ some (slice header 0 i, slice header (i + 1) (len header))
]

abbrev lower : ℕ → ℕ
lower c = if ltb c 65 then c else if ltb c 91 then c + 32 else c

abbrev letter : String → ℕ → ℕ
letter text i = lower (code (char_at text i))

-- `token_type.to_lowercase() == "bearer"`: only ASCII letters have these lower-case letters
abbrev pub is_bearer : String → Bool
is_bearer token_type =
    (len token_type == 6)
    && (letter token_type 0 == 98)
    && (letter token_type 1 == 101)
    && (letter token_type 2 == 97)
    && (letter token_type 3 == 114)
    && (letter token_type 4 == 101)
    && (letter token_type 5 == 114)

-- a node without `token_server`
abbrev open_token : Token
open_token = record {
  access = [];
  sub = "anonymous";
  admin = true;
  validated_token = true;
  service = none;
  realm = none;
}

abbrev anonymous_token : TokenServer → Token
anonymous_token config = record {
  access = [];
  sub = "anonymous";
  admin = false;
  validated_token = false;
  service = some config.service;
  realm = some config.realm;
}

abbrev claimed_token : TokenServer → String → Claims → Token
claimed_token config subject claims = record {
  access = claims.access;
  sub = subject;
  admin = false;
  validated_token = true;
  service = some config.service;
  realm = some config.realm;
}

module _ (verify_token : TokenServer → String → Option Claims) where
  abbrev pub from_claims : TokenServer → Option Claims → Extracted
  from_claims config none = refused invalid
  from_claims config (some claims) = elim claims.subject [
    | none ↦ refused invalid
    | some subject ↦ ready (claimed_token config subject claims)
  ]

  abbrev pub from_header : TokenServer → String → Extracted
  from_header config header = elim (split_once header) [
    | none ↦ refused missing
    | some (token_type, token_bytes) ↦
        if not (is_bearer token_type)
        then refused invalid
        else from_claims config (verify_token config token_bytes)
  ]

  -- The header is `none` where there is none; its text is `none` where `to_str` fails.
  unfoldable pub from_request : Option TokenServer → Option (Option String) → Outcome Extracted
  from_request none header = ok (ready open_token)
  from_request (some config) none = ok (ready (anonymous_token config))
  from_request (some config) (some header) = do text ← unwrap header; ok (from_header config text)

-- the loop over the token's access rules
unfoldable pub has_access : List Access → RepositoryName → String → Bool
has_access [] repository permission = false
has_access (access ∷ rest) repository permission =
    let later = has_access rest repository permission in
    if access.repository == repository
    then if Set.contains access.permissions permission then true else later
    else later

unfoldable pub has_permission : Token → RepositoryName → String → Bool
unfolding has_access
has_permission token repository permission =
    if not token.validated_token
    then false
    else if token.admin
    then true
    else has_access token.access repository permission

abbrev join : String → List String → String
join separator [] = ""
join separator (s ∷ []) = s
join separator (s ∷ more) = s ++ (separator ++ join separator more)

abbrev scope_of : Access → String
scope_of req = "repository:" ++ (req.repository.name ++ (":" ++ join "," req.permissions))

abbrev scopes_of : List Access → List String
scopes_of [] = []
scopes_of (req ∷ access) = scope_of req ∷ scopes_of access

-- `expect` of a missing service or realm is a panic.
unfoldable pub get_challenge : Token → List Access → Outcome String
get_challenge token access = do
  service ← unwrap token.service
  realm ← unwrap token.realm
  ok (
      "Bearer realm=\""
      ++ (realm
          ++ ("\",service=\""
              ++ (service ++ ("\",scope=\"" ++ (join " " (scopes_of access) ++ "\""))))))

abbrev pub get_pull_challenge : Token → RepositoryName → Outcome String
get_pull_challenge token repository =
    get_challenge token (record { repository = repository; permissions = "pull" ∷ [] } ∷ [])

abbrev pub get_push_challenge : Token → RepositoryName → Outcome String
get_push_challenge token repository =
    get_challenge token
      (record { repository = repository; permissions = "pull" ∷ "push" ∷ [] } ∷ [])

unfoldable pub get_general_challenge : Token → Outcome String
get_general_challenge token = do
  service ← unwrap token.service
  realm ← unwrap token.realm
  ok ("Bearer realm=\"" ++ (realm ++ ("\",service=\"" ++ (service ++ "\""))))
