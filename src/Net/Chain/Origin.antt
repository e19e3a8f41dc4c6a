-- ===== src/Net/Chain/Origin.antt =====
-- commonnet/net/chain.py: what `check_hop` accepts as an origin, a credential and a pin.
use common_network.Prelude.{
  ℕ, ◌≤◌, String, ◌≡◌, ◌≢◌, refl, ◌⊎◌, inl, inr, Bool, true, false, ◌&&◌, ◌||◌, not, Option, none,
  some, arith, leb, ◌==◌, text_eq, Option-cases, Bool-cases,
}
use common_network.Prelude.Text.{text_length}
use common_network.Prelude.Result.{Gives}
use common_network.Net.Json.{Json, null, flag, int, negative, real, text, arr, obj}
use common_network.Net.Protocol.{all_chars}
use common_network.Net.Protocol.Checked.{IsProtocolError}
use common_network.Net.Chain.{
  Python, UrlParts, is_some, is_hex, is_token, is_origin, normalize_fingerprint, check_url,
  check_hop_token, check_hop_pin,
}

abbrev pub IsPort : Option ℕ → Type 0
IsPort none = Unit
IsPort (some port) = (1 ≤ port) × (port ≤ 65535)

abbrev pub HasHost : Option String → Type 0
HasHost none = ⊥
HasHost (some host) = host ≢ ""

-- A scheme, a host and at most a port: no credentials, path, query and fragment.
pub record IsOrigin (allow_private : Bool) (parts : UrlParts) : Type 0 where
  pub scheme : (parts.scheme ≡ "https") ⊎ ((allow_private ≡ true) × (parts.scheme ≡ "http"))
  pub host : HasHost parts.hostname
  pub no_user : parts.username ≡ none
  pub no_password : parts.password ≡ none
  pub path : (parts.path ≡ "") ⊎ (parts.path ≡ "/")
  pub no_query : parts.query ≡ ""
  pub no_fragment : parts.fragment ≡ ""
  pub port : IsPort parts.port

-- A credential has 16 characters or more, none of them white space.
abbrev pub IsCredential : Python → Option String → Type 0
IsCredential py none = Unit
IsCredential py (some token) =
    (16 ≤ text_length token) × (all_chars (λ c. not (py.is_space c)) token ≡ true)

-- A pin is 64 hexadecimal digits.
abbrev pub IsPin : Option String → Type 0
IsPin none = Unit
IsPin (some pin) = (text_length pin ≡ 64) × (all_chars is_hex pin ≡ true)

is_none-none {ℓ} : {A : Type ℓ} (o : Option A) → not (is_some o) ≡ true → o ≡ none
is_none-none none h = refl
is_none-none (some a) h = cc

HasHost-some :
    (o : Option String) → elim o [ none ↦ false | some host ↦ not (host == "") ] ≡ true → HasHost o
HasHost-some none h = cc
HasHost-some (some host) h =
    λ e. let same : (host == "") ≡ true = (text_eq.agrees host "").1 e in ground arith

IsPort-some :
    (o : Option ℕ)
    → elim o [ none ↦ true | some port ↦ leb 1 port && leb port 65535 ] ≡ true
    → IsPort o
IsPort-some none h = tt
IsPort-some (some port) h = (ground arith, ground arith)

pub either_text : (s a b : String) → (s == a || s == b) ≡ true → (s ≡ a) ⊎ (s ≡ b)
either_text s a b h = elim (Bool-cases (s == a)) [
  | inl e ↦ inl ((text_eq.agrees s a).0 e)
  | inr e ↦ inr ((text_eq.agrees s b).0 (ground arith))
]

scheme_of :
    (allow_private : Bool) (s : String)
    → (s == "https" || allow_private && s == "http") ≡ true
    → (s ≡ "https") ⊎ ((allow_private ≡ true) × (s ≡ "http"))
scheme_of allow_private s h = elim (Bool-cases (s == "https")) [
  | inl e ↦ inl ((text_eq.agrees s "https").0 e)
  | inr e ↦ inr (ground arith, (text_eq.agrees s "http").0 (ground arith))
]

pub is_origin-IsOrigin :
    (py : Python) (allow_private : Bool) (parts : UrlParts)
    → is_origin py allow_private parts ≡ true
    → IsOrigin allow_private parts
unfolding is_origin
is_origin-IsOrigin py allow_private parts h = record {
  scheme = scheme_of allow_private parts.scheme (ground arith);
  host = HasHost-some parts.hostname (ground arith);
  no_user = is_none-none parts.username (ground arith);
  no_password = is_none-none parts.password (ground arith);
  path = either_text parts.path "" "/" (ground arith);
  no_query = (text_eq.agrees parts.query "").0 (ground arith);
  no_fragment = (text_eq.agrees parts.fragment "").0 (ground arith);
  port = IsPort-some parts.port (ground arith);
}

module _ (py : Python) where
  is_token-IsCredential : (s : String) → is_token py s ≡ true → IsCredential py (some s)
  unfolding is_token
  is_token-IsCredential s h = (ground arith, ground arith)

  normalize_fingerprint-IsPin :
      (s pin : String) → normalize_fingerprint py s ≡ some pin → IsPin (some pin)
  unfolding normalize_fingerprint
  normalize_fingerprint-IsPin s pin h = ground arith

module _ (py : Python) {Real : Type 0} where
  pub check_url-Gives :
      (j : Json Real)
      → Gives IsProtocolError (λ (url : String). text_length url ≤ 512) (check_url py j)
  unfolding check_url
  check_url-Gives j = ground arith

  pub check_hop_token-Gives :
      (j : Option (Json Real)) → Gives IsProtocolError (IsCredential py) (check_hop_token py j)
  unfolding check_hop_token
  check_hop_token-Gives none = tt
  check_hop_token-Gives (some null) = tt
  check_hop_token-Gives (some (text s)) = elim (Bool-cases (is_token py s)) [
    | inl e ↦ rw (Gives, check_hop_token, e) (is_token-IsCredential py s e)
    | inr e ↦ rw (Gives, check_hop_token, e) tt
  ]
  check_hop_token-Gives (some (flag b)) = tt
  check_hop_token-Gives (some (int n)) = tt
  check_hop_token-Gives (some (negative n)) = tt
  check_hop_token-Gives (some (real x)) = tt
  check_hop_token-Gives (some (arr xs)) = tt
  check_hop_token-Gives (some (obj fs)) = tt

  pub check_hop_pin-Gives :
      (j : Option (Json Real)) → Gives IsProtocolError IsPin (check_hop_pin py j)
  unfolding check_hop_pin
  check_hop_pin-Gives none = tt
  check_hop_pin-Gives (some null) = tt
  check_hop_pin-Gives (some (text s)) = elim (Option-cases (normalize_fingerprint py s)) [
    | inl e ↦ rw (Gives, check_hop_pin, e) tt
    | inr (pin, e) ↦ rw (Gives, check_hop_pin, e) (normalize_fingerprint-IsPin py s pin e)
  ]
  check_hop_pin-Gives (some (flag b)) = tt
  check_hop_pin-Gives (some (int n)) = tt
  check_hop_pin-Gives (some (negative n)) = tt
  check_hop_pin-Gives (some (real x)) = tt
  check_hop_pin-Gives (some (arr xs)) = tt
  check_hop_pin-Gives (some (obj fs)) = tt
