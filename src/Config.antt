-- ===== src/Config.antt =====
-- src/config.rs: the configuration with its defaults, and the number of a node, which ends its
-- identifier. The public key of a token server, the matcher of a webhook and how figment merges the
-- sources are left out. Numbers of nodes are u64: `+= 1` wraps, as in a release build.
pub mod Ids
use Prim.Native.Char.{Char, code}
use Prim.Native.String
use Prim.Native.String.append
use distribd.Prelude.{
  ℕ, ◌+◌, ◌*◌, ◌-◌, ◌%◌, ◌^◌, ◌<◌, String, Option, none, some, List, [], if◌then◌else◌, Bool, true,
  false, ltb, leb, ◌&&◌, ◌==◌, nat_eq, ◌≡◌, refl, ap, ◌∙◌, arith, inl, inr, Bool-cases,
}

pub record TlsConfig : Type 0 where
  pub key : String
  pub chain : String

pub record RaftConfig : Type 0 where
  pub address : String
  pub port : ℕ
  pub tls : Option TlsConfig

-- `RegistryConfig` and `PrometheusConfig`
pub record ListenConfig : Type 0 where
  pub address : String
  pub port : ℕ

pub record TokenConfig : Type 0 where
  pub issuer : String
  pub service : String
  pub realm : String

pub record WebhookConfig (Regex : Type 0) : Type 0 where
  pub url : String
  pub matcher : Regex

pub record Configuration (Regex : Type 0) : Type 0 where
  pub identifier : String
  pub raft : RaftConfig
  pub registry : ListenConfig
  pub prometheus : ListenConfig
  pub token_server : Option TokenConfig
  pub storage : String
  pub webhooks : List (WebhookConfig Regex)
  pub scrubber_enabled : Bool
  pub sentry_endpoint : Option String

abbrev pub default_raft : RaftConfig
default_raft = record { address = "0.0.0.0"; port = 8080; tls = none }

abbrev pub default_registry : ListenConfig
default_registry = record { address = "0.0.0.0"; port = 8000 }

abbrev pub default_prometheus : ListenConfig
default_prometheus = record { address = "0.0.0.0"; port = 7080 }

abbrev pub default : {Regex : Type 0} → Configuration Regex
default = record {
  identifier = "localhost-0";
  raft = default_raft;
  registry = default_registry;
  prometheus = default_prometheus;
  token_server = none;
  storage = "var";
  webhooks = [];
  scrubber_enabled = false;
  sentry_endpoint = none;
}

abbrev pub u64_mod : ℕ
u64_mod = 2 ^ 64

-- `rsplit_once(dash)`
abbrev pub is_dash : Char → Bool
is_dash c = code c == 0x2d

abbrev pub before_split : Char → String → Option (String × String) → Option (String × String)
before_split c s (some (front, rest)) = some (String.◌∷◌ c front, rest)
before_split c s none = if is_dash c then some (String.[], s) else none

unfoldable pub rsplit_once : String → Option (String × String)
rsplit_once String.[] = none
rsplit_once (String.◌∷◌ c s) = before_split c s (rsplit_once s)

-- `u64::from_str`: the digits of the text, after a plus sign if there is one
abbrev pub is_digit : Char → Bool
is_digit c = leb 0x30 (code c) && leb (code c) 0x39

unfoldable pub parse_digits : ℕ → String → Option ℕ
parse_digits n String.[] = some n
parse_digits n (String.◌∷◌ c s) =
    let rest = parse_digits (n * 10 + (code c - 0x30)) s in
    if is_digit c && ltb (n * 10 + (code c - 0x30)) u64_mod then rest else none

abbrev pub parse_unsigned : String → Option ℕ
parse_unsigned String.[] = none
parse_unsigned (String.◌∷◌ c s) = parse_digits 0 (String.◌∷◌ c s)

unfoldable pub parse : String → Option ℕ
unfolding parse_digits
parse String.[] = none
parse (String.◌∷◌ c s) =
    if code c == 0x2b then parse_unsigned s else parse_unsigned (String.◌∷◌ c s)

pub data IdError : Type 0 where
  invalid_identifier not_a_number : IdError

pub data IdResult : Type 0 where
  is_node : ℕ → IdResult
  failed : IdError → IdResult

abbrev pub number : Option ℕ → IdResult
number none = failed not_a_number
number (some node_id) = is_node ((node_id + 1) % u64_mod)

unfoldable pub id : String → IdResult
unfolding rsplit_once parse
id identifier = elim (rsplit_once identifier) [
  | none ↦ failed invalid_identifier
  | some (front, node_id) ↦ number (parse node_id)
]
