-- ===== src/Token/Permissions.antt =====
-- What a request may do, from its header and the claims behind it.
use distribd.Prelude.{
  String, Option, none, some, List, [], ◌∷◌, ok, true, false, ◌≡◌, refl, arith, inl, inr, In, head,
  tail, Bool-cases, Option-cases, Outcome-cases, ◌==◌, string_eq,
}
use distribd.Prelude.Set
use distribd.Types.{repository_eq, RepositoryName}
use distribd.Token.{
  Access, Token, ready, TokenServer, Claims, split_once, is_bearer, from_header, from_claims,
  from_request, has_access, has_permission, get_challenge,
}

-- One access rule of the list names the repository, and has the permission.
abbrev pub Grants : List Access → RepositoryName → String → Type 0
Grants access r p =
    (a : Access) × In a access
    × ((a.repository == r) ≡ true)
    × (Set.contains a.permissions p ≡ true)

has_access-Grants :
    (access : List Access) (r : RepositoryName) (p : String)
    → has_access access r p ≡ true
    → Grants access r p
unfolding has_access
has_access-Grants [] r p h = absurd (ground arith)
has_access-Grants (a ∷ access) r p h = elim (Bool-cases (has_access access r p)) [
  | inl later ↦ let (b, i, e, f) = has_access-Grants access r p later in (b, tail i, e, f)
  | inr never ↦ (a, head refl, ground arith, ground arith)
]

Grants-has_access :
    (access : List Access) (r : RepositoryName) (p : String) (a : Access)
    → In a access
    → (a.repository == r) ≡ true
    → Set.contains a.permissions p ≡ true
    → has_access access r p ≡ true
unfolding has_access
Grants-has_access [] r p a i same granted = elim i [ ]
Grants-has_access (b ∷ access) r p a (head e) same granted = rw e (ground arith)
Grants-has_access (b ∷ access) r p a (tail i) same granted =
    ground (arith, Grants-has_access access r p a i same granted)

-- The header carries a bearer token, and the claims behind it name a subject.
pub record IsAuthenticated (verify_token : TokenServer → String → Option Claims)
    (config : TokenServer) (text : String) (claims : Claims) : Type 0 where
  pub scheme : String
  pub bytes : String
  pub subject : String
  pub parts : split_once text ≡ some (scheme, bytes)
  pub bearer : is_bearer scheme ≡ true
  pub verified : verify_token config bytes ≡ some claims
  pub named : claims.subject ≡ some subject

module _ (verify_token : TokenServer → String → Option Claims) where
  abbrev IsConfigured : TokenServer → Token → Type 0
  IsConfigured config token =
      (token.service ≡ some config.service) × (token.realm ≡ some config.realm)

  -- what a ready answer of a node with a token server is made of
  data Source (config : TokenServer) (header : Option (Option String)) (token : Token)
      : Type 0 where
    without :
        header ≡ none
        → token.validated_token ≡ false
        → IsConfigured config token
        → Source config header token
    verified :
        (text : String) (claims : Claims)
        → header ≡ some (some text)
        → IsAuthenticated verify_token config text claims
        → token.admin ≡ false
        → token.access ≡ claims.access
        → IsConfigured config token
        → Source config header token

  Source-of_claims :
      (config : TokenServer) (text scheme bytes : String) (o : Option Claims) (token : Token)
      → split_once text ≡ some (scheme, bytes)
      → is_bearer scheme ≡ true
      → verify_token config bytes ≡ o
      → from_claims verify_token config o ≡ ready token
      → Source config (some (some text)) token
  Source-of_claims config text scheme bytes none token p b v h = absurd (ground arith)
  Source-of_claims config text scheme bytes (some claims) token p b v h =
      elim (Option-cases claims.subject) [
        | inl e ↦ absurd (ground arith)
        | inr (subject, e) ↦
            verified text claims refl
              (record {
                scheme = scheme;
                bytes = bytes;
                subject = subject;
                parts = p;
                bearer = b;
                verified = v;
                named = e;
              })
              (ground arith) (ground arith) (ground arith)
      ]

  Source-of_header :
      (config : TokenServer) (text : String) (token : Token)
      → from_header verify_token config text ≡ ready token
      → Source config (some (some text)) token
  Source-of_header config text token h = elim (Option-cases (split_once text)) [
    | inl e ↦ absurd (ground arith)
    | inr ((scheme, bytes), e) ↦ elim (Bool-cases (is_bearer scheme)) [
      | inl b ↦
          Source-of_claims config text scheme bytes (verify_token config bytes) token e b refl
            (ground arith)
      | inr b ↦ absurd (ground arith)
    ]
  ]

  Source-of :
      (config : TokenServer) (header : Option (Option String)) (token : Token)
      → from_request verify_token (some config) header ≡ ok (ready token)
      → Source config header token
  unfolding from_request
  Source-of config none token h = without refl (ground arith) (ground arith)
  Source-of config (some none) token h = absurd (ground arith)
  Source-of config (some (some text)) token h = Source-of_header config text token (ground arith)

  configured :
      (config : TokenServer) (header : Option (Option String)) (token : Token)
      → Source config header token
      → IsConfigured config token
  configured config header token (without e v c) = c
  configured config header token (verified text claims e auth a c k) = k

  -- On a node with a token server, a permission comes from a bearer token that was verified, with a
  -- subject, and from one access rule among its claims.
  pub has_permission-from_request :
      (config : TokenServer) (header : Option (Option String)) (token : Token) (r : RepositoryName)
      (p : String)
      → from_request verify_token (some config) header ≡ ok (ready token)
      → has_permission token r p ≡ true
      → (text : String) × (claims : Claims) × (header ≡ some (some text))
        × IsAuthenticated verify_token config text claims
        × Grants claims.access r p
  unfolding has_permission
  has_permission-from_request config header token r p h allowed =
      elim (Source-of config header token h) [
        | without e v c ↦ absurd (ground arith)
        | verified text claims e auth a c k ↦
            (text, claims, e, auth, has_access-Grants claims.access r p (ground arith))
      ]

  -- A request whose bearer token is verified, with a subject, has the permissions that an access rule
  -- of its claims grants, and the subject of the claims.
  pub from_request-IsAuthenticated :
      (config : TokenServer) (text : String) (claims : Claims) (r : RepositoryName) (p : String)
      → IsAuthenticated verify_token config text claims
      → Grants claims.access r p
      → (token : Token) × (from_request verify_token (some config) (some (some text))
          ≡ ok (ready token))
        × (has_permission token r p ≡ true)
        × (some token.sub ≡ claims.subject)
  unfolding from_request has_permission
  from_request-IsAuthenticated config text claims r p auth (a, i, same, granted) = (
    record {
      access = claims.access;
      sub = auth.subject;
      admin = false;
      validated_token = true;
      service = some config.service;
      realm = some config.realm;
    },
    ground (arith, auth.parts, auth.bearer, auth.verified, auth.named),
    Grants-has_access claims.access r p a i same granted,
    ground (arith, auth.named),
  )

  -- A token that is not validated comes from a node with a token server, so that a challenge to its
  -- client never panics.
  pub get_challenge-from_request :
      (config : Option TokenServer) (header : Option (Option String)) (token : Token)
      (access : List Access)
      → from_request verify_token config header ≡ ok (ready token)
      → token.validated_token ≡ false
      → (challenge : String) × (get_challenge token access ≡ ok challenge)
  unfolding from_request get_challenge
  get_challenge-from_request none header token access h v = absurd (ground arith)
  get_challenge-from_request (some config) header token access h v =
      let known = configured config header token (Source-of config header token h) in
      elim (Outcome-cases (get_challenge token access)) [
        | inl e ↦ absurd (ground (arith, known))
        | inr found ↦ found
      ]

-- A token that may do something was validated.
pub has_permission-validated :
    (token : Token) (repository : RepositoryName) (permission : String)
    → has_permission token repository permission ≡ true
    → token.validated_token ≡ true
unfolding has_permission
has_permission-validated token repository permission h = elim (Bool-cases token.validated_token) [
  | inl valid ↦ valid
  | inr anonymous ↦ absurd (ground (arith, h, anonymous))
]
