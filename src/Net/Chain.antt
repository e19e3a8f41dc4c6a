-- ===== src/Net/Chain.antt =====
-- commonnet/net/chain.py: a hop of a route, which the caller supplies. Python's `urlsplit`,
-- `ip_address` and the treatment of white space and letters are parameters.
pub mod Ids
pub mod Linked
pub mod Origin
pub mod Hops
pub mod Request
pub mod Reply
mod Tests
use common_network.Prelude.{
  ℕ, zero, suc, ◌+◌, ◌-◌, ◌*◌, ◌/◌, ◌%◌, ◌^◌, ◌≤◌, ◌<◌, min, max, String, ◌≡◌, refl, sym, ap, ◌∙◌,
  ◌≢◌, ◌↔◌, ◌⊎◌, inl, inr, Bool, true, false, ◌&&◌, ◌||◌, not, Option, none, some, List, [], ◌∷◌,
  ◌++◌, map, reverse, arith, ltb, leb, same_number, if◌then◌else◌, ◌==◌, text_eq, number_eq, length,
  take, drop, keep_if, count_if, any, all, All, ltb→lt, ltb→ge, leb→le, leb→gt, Bool-cases,
  Option-cases, either_of, by_test, length-append, length-map, map-append,
}
use common_network.Prelude.Text.{text_length}
use common_network.Prelude.Result.{Result, ok, err, ◌>>=◌, ◌>>◌, guard}
use common_network.Net.Json.{Raised, protocol_error, Json, null, text, Fields, item, get}
use common_network.Net.Protocol.{refused, fields_of, check_layers, all_chars}
use Prim.Native.Char.{Char, code}

pub record UrlParts : Type 0 where
  pub scheme : String
  pub hostname : Option String
  pub username : Option String
  pub password : Option String
  pub path : String
  pub query : String
  pub fragment : String
  pub port : Option ℕ

-- `urlsplit` with its port, where it raises no `ValueError`; `ip_address(host)` as its `is_global`.
pub record Python : Type 0 where
  pub urlsplit : String → Option UrlParts
  pub ip_address : String → Option Bool
  pub is_space : Char → Bool
  pub strip : String → String
  pub lower : String → String

pub record Hop : Type 0 where
  pub url : String
  pub layers : ℕ × ℕ
  pub token : Option String
  pub pin : Option String

abbrev pub max_hops : ℕ
max_hops = 64

abbrev pub is_some {ℓ} : {A : Type ℓ} → Option A → Bool
is_some none = false
is_some (some a) = true

-- `text.replace(":", "")`
unfoldable pub without_colons : String → String
without_colons String.[] = String.[]
without_colons (String.◌∷◌ c s) =
    let rest = without_colons s in if code c == 58 then rest else String.◌∷◌ c rest

-- `0123456789abcdef`, by code point
unfoldable pub is_hex : Char → Bool
is_hex c = leb 48 (code c) && leb (code c) 57 || leb 97 (code c) && leb (code c) 102

-- `url.rstrip("/")`
unfoldable pub without_slashes : String → String
without_slashes String.[] = String.[]
without_slashes (String.◌∷◌ c s) =
    let rest = without_slashes s in
    if text_length rest == 0 && code c == 47 then String.[] else String.◌∷◌ c rest

module _ (py : Python) where
  -- `auth.check_token`, when it raises no `TokenError`
  unfoldable pub is_token : String → Bool
  is_token token = leb 16 (text_length token) && all_chars (λ c. not (py.is_space c)) token

  -- `secure.normalize_fingerprint`, when it raises no `ValueError`
  unfoldable pub normalize_fingerprint : String → Option String
  normalize_fingerprint fp =
      let plain : String = py.lower (py.strip (without_colons fp)) in
      if text_length plain == 64 && all_chars is_hex plain then some plain else none

  unfoldable pub check_hop_token :
      {Real : Type 0} → Option (Json Real) → Result Raised (Option String)
  check_hop_token none = ok none
  check_hop_token (some null) = ok none
  check_hop_token (some (text s)) =
      if is_token s then ok (some s) else refused "invalid chain credential"
  check_hop_token (some _) = refused "invalid chain credential"

  unfoldable pub check_hop_pin :
      {Real : Type 0} → Option (Json Real) → Result Raised (Option String)
  check_hop_pin none = ok none
  check_hop_pin (some null) = ok none
  check_hop_pin (some (text s)) = elim (normalize_fingerprint s) [
    | none ↦ refused "invalid chain certificate pin"
    | some pin ↦ ok (some pin)
  ]
  check_hop_pin (some _) = refused "invalid chain certificate pin"

  unfoldable pub check_url : {Real : Type 0} → Json Real → Result Raised String
  check_url (text url) =
      if leb (text_length url) 512 then ok url else refused "chain hop needs an HTTPS origin"
  check_url _ = refused "chain hop needs an HTTPS origin"

  unfoldable pub split_url : String → Result Raised UrlParts
  split_url url = elim (py.urlsplit url) [
    | none ↦ refused "invalid chain origin"
    | some parts ↦ ok parts
  ]

  abbrev pub has_host : UrlParts → Bool
  has_host parts = elim parts.hostname [ none ↦ false | some host ↦ not (host == "") ]

  abbrev pub has_port : UrlParts → Bool
  has_port parts = elim parts.port [ none ↦ true | some port ↦ leb 1 port && leb port 65535 ]

  -- An origin, without credentials, path, query and fragment.
  unfoldable pub is_origin : Bool → UrlParts → Bool
  is_origin allow_private parts =
      (parts.scheme == "https" || allow_private && parts.scheme == "http")
      && (has_host parts && (not (is_some parts.username) && not (is_some parts.password)))
      && ((parts.path == "" || parts.path == "/") && (parts.query == "" && parts.fragment == ""))
      && has_port parts

  -- Whether the host is a numeric address, and a global one.
  unfoldable pub address_of : UrlParts → Option Bool
  address_of parts = elim parts.hostname [ none ↦ none | some host ↦ py.ip_address host ]

  abbrev pub is_public : Option Bool → Bool
  is_public none = true
  is_public (some is_global) = is_global

  unfoldable pub check_hop : {Real : Type 0} → Bool → Json Real → Result Raised Hop
  check_hop allow_private value = do
    fs ← fields_of value "chain hop" ("url" ∷ "layers" ∷ []) ("token" ∷ "pin" ∷ [])
    url ← check_url (← item "url" fs)
    parts ← split_url url
    guard (is_origin allow_private parts)
        (protocol_error "chain hop must be an HTTPS origin without credentials or a path")
    guard (is_public (address_of parts) || allow_private)
        (protocol_error "chain destination must be public")
    token ← check_hop_token (get "token" fs)
    pin ← check_hop_pin (get "pin" fs)
    guard
        (not (
          is_some (address_of parts)
          && parts.scheme == "https"
          && not (is_some pin)
          && not allow_private))
        (protocol_error "direct chain peers require a certificate pin")
    layers ← check_layers (← item "layers" fs)
    ok (record { url = without_slashes url; layers = layers; token = token; pin = pin })
