-- ===== src/Net/Protocol.antt =====
-- commonnet/net/protocol.py: the checks of single values, strict about types and ranges.
-- Python's floats and base64 are parameters. A byte is a number.
pub mod Checked
pub mod Tensors
pub mod Sampling
pub mod Forward
pub mod Short
pub mod Examples
mod Tests
use common_network.Prelude.{
  ℕ, zero, suc, ◌+◌, ◌-◌, ◌*◌, ◌/◌, ◌%◌, ◌^◌, ◌≤◌, ◌<◌, min, max, String, ◌≡◌, refl, sym, ap, ◌∙◌,
  ◌≢◌, ◌↔◌, ◌⊎◌, inl, inr, Bool, true, false, ◌&&◌, ◌||◌, not, Option, none, some, List, [], ◌∷◌,
  ◌++◌, map, reverse, arith, ltb, leb, same_number, if◌then◌else◌, ◌==◌, text_eq, number_eq, length,
  take, drop, keep_if, count_if, any, all, All, ltb→lt, ltb→ge, leb→le, leb→gt, Bool-cases,
  Option-cases, either_of, by_test, length-append, length-map, map-append,
}
use common_network.Prelude.Text.{text_length}
use common_network.Prelude.Result.{Result, ok, err, ◌>>=◌, ◌>>◌, guard}
use common_network.Net.Json.{
  Raised, protocol_error, key_error, overflow_error, Json, null, flag, int, negative, real, text,
  arr, obj, Items, nil, cons, Fields, end, field, items_length, missing, unknown,
}
use Prim.Native.Char.{Char, code}
use Prim.Native.String.{◌++◌ as joined}

-- Floats: an integer as a float, unless it is too large, and the tests and the rounding that the
-- program makes. A float that is at least 0 and at most 10^9 is so when rounded to three places.
pub record Floats : Type 1 where
  pub Real : Type 0
  pub of_int : ℕ → Option Real
  pub of_negative : ℕ → Option Real
  pub is_finite : Real → Bool
  pub is_positive : Real → Bool
  pub at_least_0 : Real → Bool
  pub at_most : Real → ℕ → Bool
  pub is_1 : Real → Bool
  pub round_3 : Real → Real

-- `base64.b64encode` and `base64.b64decode(..., validate=True)`
pub record Base64 : Type 0 where
  pub b64encode : List ℕ → String
  pub b64decode : String → Option (List ℕ)
  pub decode-encode : (bytes : List ℕ) → b64decode (b64encode bytes) ≡ some bytes

abbrev pub shape_rank : ℕ
shape_rank = 3

-- `DTYPE_WIDTH.get(name)`
unfoldable pub dtype_width : String → Option ℕ
dtype_width name = if name == "float16" then some 2 else if name == "float32" then some 4 else none

unfoldable pub numel : List ℕ → ℕ
numel [] = 1
numel (dim ∷ dims) = dim * numel dims

abbrev pub is_between : ℕ → ℕ → ℕ → Bool
is_between low high n = leb low n && leb n high

-- `[A-Za-z0-9]` and `[A-Za-z0-9_.-]`, by code point
unfoldable pub is_letter_or_digit : Char → Bool
is_letter_or_digit c =
    is_between 65 90 (code c) || is_between 97 122 (code c) || is_between 48 57 (code c)

unfoldable pub is_id_char : Char → Bool
unfolding is_letter_or_digit
is_id_char c = is_letter_or_digit c || code c == 95 || code c == 46 || code c == 45

unfoldable pub all_chars : (Char → Bool) → String → Bool
all_chars p String.[] = true
all_chars p (String.◌∷◌ c s) = p c && all_chars p s

-- `SESSION_ID_PATTERN.fullmatch(value) is not None`
unfoldable pub is_session_id : String → Bool
is_session_id String.[] = false
is_session_id (String.◌∷◌ c s) =
    is_letter_or_digit c && leb (text_length s) 127 && all_chars is_id_char s

abbrev pub refused {ℓ} : {A : Type ℓ} → String → Result Raised A
refused message = err (protocol_error message)

module _ {Real : Type 0} where
  -- The dimensions one by one.
  unfoldable pub check_dims : Items Real → Result Raised (List ℕ)
  check_dims nil = ok []
  check_dims (cons (int (suc n)) xs) = do dims ← check_dims xs; ok (suc n ∷ dims)
  check_dims (cons _ xs) = refused "every shape dimension must be a positive int"

  unfoldable pub check_shape : Json Real → Result Raised (List ℕ)
  check_shape (arr xs) =
      if items_length xs == shape_rank
      then check_dims xs
      else refused "shape must be [batch, seq, hidden]"
  check_shape _ = refused "shape must be [batch, seq, hidden]"

  unfoldable pub check_dtype : Json Real → Result Raised String
  check_dtype (text name) = elim (dtype_width name) [
    | none ↦ refused "dtype must be one of"
    | some w ↦ ok name
  ]
  check_dtype _ = refused "dtype must be one of"

  unfoldable pub check_session_id : Json Real → Result Raised String
  check_session_id (text s) =
      if is_session_id s
      then ok s
      else refused "session id must be 1 to 128 characters: letters, digits, '_', '.' or '-'"
  check_session_id _ =
      refused "session id must be 1 to 128 characters: letters, digits, '_', '.' or '-'"

  unfoldable pub check_start_pos : Json Real → Result Raised ℕ
  check_start_pos (int n) = ok n
  check_start_pos _ = refused "start_pos must be a non-negative int"

  -- A half-open range of layers.
  unfoldable pub check_layers : Json Real → Result Raised (ℕ × ℕ)
  check_layers (arr (cons (int start) (cons (int stop) nil))) =
      if ltb start stop then ok (start, stop) else refused "layers must satisfy 0 <= start < end"
  check_layers (arr (cons _ (cons _ nil))) = refused "layers must satisfy 0 <= start < end"
  check_layers _ = refused "layers must be [start, end]"

  -- `_fields`: the object itself, when it has what is required and no more than what is known.
  unfoldable pub fields_of :
      Json Real → String → List String → List String → Result Raised (Fields Real)
  fields_of (obj fs) what required optional =
      if length (missing required fs) == 0
      then if length (unknown (required ++ optional) fs) == 0
        then ok fs
        else refused (joined what " has unknown fields")
      else refused (joined what " is missing")
  fields_of _ what required optional = refused (joined what " must be a JSON object")
