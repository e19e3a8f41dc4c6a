-- ===== src/Mesh/Records/Shape.antt =====
-- commonnet/mesh/records.py: `check_shape`, over the values that `json.loads` gives. Floats and
-- Python's treatment of texts are parameters.
pub mod Entries
pub mod Required
pub mod Checked
pub mod Verify
pub mod Genuine
mod Tests
use common_network.Prelude.{
  ℕ, zero, suc, ◌+◌, ◌-◌, ◌*◌, ◌/◌, ◌%◌, ◌^◌, ◌≤◌, ◌<◌, min, max, String, ◌≡◌, refl, sym, ap, ◌∙◌,
  ◌≢◌, ◌↔◌, ◌⊎◌, inl, inr, Bool, true, false, ◌&&◌, ◌||◌, not, Option, none, some, List, [], ◌∷◌,
  ◌++◌, map, reverse, arith, ltb, leb, same_number, if◌then◌else◌, ◌==◌, text_eq, number_eq, length,
  take, drop, keep_if, count_if, any, all, All, ltb→lt, ltb→ge, leb→le, leb→gt, Bool-cases,
  Option-cases, either_of, by_test, length-append, length-map, map-append,
}
use common_network.Prelude.Text.{text_length}
use common_network.Prelude.Result.{Result, ok, err, ◌>>=◌, ◌>>◌, guard}
use common_network.Net.Json.{
  Raised, record_error, overflow_error, Json, null, flag, int, negative, real, text, arr, obj,
  Items, nil, cons, Fields, item, get, has, missing,
}
use common_network.Net.Protocol.{Floats}
use common_network.Net.Protocol.Sampling.{is_number, to_float}
use common_network.Net.Protocol.Short.{is_finite}
use Prim.Native.Char.{Char, code}
use common_network.Net.Chain.{Python, normalize_fingerprint, is_some}

abbrev pub signed_fields : List String
signed_fields =
    "v" ∷ "network" ∷ "peer" ∷ "pub" ∷ "url" ∷ "token" ∷ "window" ∷ "backend" ∷ "state" ∷ "gib"
    ∷ "seq" ∷ "ts" ∷ []

abbrev pub text_fields : List String
text_fields = "network" ∷ "peer" ∷ "pub" ∷ "backend" ∷ "state" ∷ "token" ∷ []

abbrev pub max_token_chars : ℕ
max_token_chars = 256

abbrev pub max_url_chars : ℕ
max_url_chars = 512

-- `text.startswith(prefix)`
unfoldable pub starts_with : String → String → Bool
starts_with String.[] s = true
starts_with (String.◌∷◌ c p) String.[] = false
starts_with (String.◌∷◌ c p) (String.◌∷◌ d s) = code c == code d && starts_with p s

module _ {Real : Type 0} where
  unfoldable pub is_text : Json Real → Bool
  is_text (text s) = true
  is_text _ = false

  -- Whether each key has a text.
  unfoldable pub check_texts : List String → Fields Real → Result Raised (Unit {0})
  check_texts [] fs = ok tt
  check_texts (key ∷ keys) fs = do
    v ← item key fs
    guard (is_text v) (record_error "must be a string")
    check_texts keys fs

  unfoldable pub is_state : Json Real → Bool
  is_state (text s) = s == "loading" || (s == "up" || s == "leaving")
  is_state _ = false

  unfoldable pub is_url : Json Real → Bool
  is_url null = true
  is_url (text s) =
      leb (text_length s) max_url_chars && (starts_with "http://" s || starts_with "https://" s)
  is_url _ = false

  unfoldable pub is_short : ℕ → Json Real → Bool
  is_short most (text s) = leb (text_length s) most
  is_short most _ = false

  unfoldable pub is_window : Json Real → Bool
  is_window null = true
  is_window (arr (cons (int start) (cons (int stop) nil))) = ltb start stop
  is_window _ = false

  unfoldable pub is_seq : Json Real → Bool
  is_seq (int n) = true
  is_seq _ = false

  unfoldable pub is_port : Json Real → Bool
  is_port (int n) = leb 1 n && leb n 65535
  is_port _ = false

module _ (F : Floats) (py : Python) where
  -- `record["v"] == 1`, as Python compares: also `True` and `1.0`
  unfoldable pub is_version : Json F.Real → Bool
  is_version (int n) = n == 1
  is_version (flag b) = b
  is_version (real x) = F.is_1 x
  is_version _ = false

  unfoldable pub at_least_0 : Json F.Real → Bool
  at_least_0 (int n) = true
  at_least_0 (real x) = F.at_least_0 x
  at_least_0 _ = false

  unfoldable pub check_port : Option (Json F.Real) → Result Raised (Unit {0})
  check_port none = ok tt
  check_port (some v) = guard (is_port v) (record_error "dht must be a port number")

  unfoldable pub check_speed : Option (Json F.Real) → Result Raised (Unit {0})
  check_speed none = ok tt
  check_speed (some v) = do
    guard (is_number F v) (record_error "speed must be a non-negative number")
    finite ← is_finite F v
    guard (finite && at_least_0 v) (record_error "speed must be a non-negative number")

  unfoldable pub is_fingerprint : Json F.Real → Bool
  is_fingerprint (text fp) = is_some (normalize_fingerprint py fp)
  is_fingerprint _ = false

  unfoldable pub check_pin : Fields F.Real → Result Raised (Unit {0})
  check_pin fs = do
    fp ← item "fp" fs
    fpsig ← item "fpsig" fs
    guard (is_text fp && is_short 128 fpsig) (record_error "fp and fpsig must be strings")
    guard (is_fingerprint fp) (record_error "fp must be a sha256 fingerprint")

  -- The optional fields.
  unfoldable pub check_optional : Fields F.Real → Result Raised (Unit {0})
  check_optional fs = do
    check_port (get "dht" fs)
    check_speed (get "speed" fs)
    guard (has "fp" fs && has "fpsig" fs || not (has "fp" fs) && not (has "fpsig" fs))
        (record_error "fp and fpsig come together")
    (if has "fp" fs then check_pin fs else ok tt)

  -- The fields that every record has.
  unfoldable pub check_signed : Fields F.Real → Result Raised (Unit {0})
  check_signed fs = do
    guard (is_version (← item "v" fs)) (record_error "unsupported record version")
    check_texts text_fields fs
    guard (is_state (← item "state" fs)) (record_error "unknown state")
    guard (is_url (← item "url" fs)) (record_error "url must be an http(s) URL or null")
    guard (is_short max_token_chars (← item "token" fs)) (record_error "token is too long")
    guard (is_window (← item "window" fs)) (record_error "window must be null or [start, end]")
    guard (is_seq (← item "seq" fs)) (record_error "seq must be a non-negative integer")
    guard (is_number F (← item "gib" fs)) (record_error "gib must be a number")
    guard (is_number F (← item "ts" fs)) (record_error "ts must be a number")

  unfoldable pub check_shape : Json F.Real → Result Raised (Fields F.Real)
  check_shape (obj fs) = do
    guard (length (missing signed_fields fs) == 0) (record_error "record has no field")
    check_signed fs
    check_optional fs
    ok fs
  check_shape _ = err (record_error "record is not an object")
