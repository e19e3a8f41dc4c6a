-- ===== src/Net/Protocol/Short.antt =====
-- commonnet/net/protocol.py: the short messages, which open, close and cut a session, and the replies.
pub mod Round
use common_network.Prelude.{
  ℕ, zero, suc, ◌+◌, ◌-◌, ◌*◌, ◌/◌, ◌%◌, ◌^◌, ◌≤◌, ◌<◌, min, max, String, ◌≡◌, refl, sym, ap, ◌∙◌,
  ◌≢◌, ◌↔◌, ◌⊎◌, inl, inr, Bool, true, false, ◌&&◌, ◌||◌, not, Option, none, some, List, [], ◌∷◌,
  ◌++◌, map, reverse, arith, ltb, leb, same_number, if◌then◌else◌, ◌==◌, text_eq, number_eq, length,
  take, drop, keep_if, count_if, any, all, All, ltb→lt, ltb→ge, leb→le, leb→gt, Bool-cases,
  Option-cases, either_of, by_test, length-append, length-map, map-append,
}
use common_network.Prelude.Result.{Result, ok, err, ◌>>=◌, ◌>>◌, guard}
use common_network.Net.Json.{
  Raised, protocol_error, key_error, overflow_error, Json, null, flag, int, negative, real, text,
  arr, obj, Items, nil, cons, Fields, end, field, text_items, item, has, get, set,
}
use common_network.Net.Protocol.{Floats, Base64, refused, fields_of, check_session_id, check_layers}
use common_network.Net.Protocol.Tensors.{Tensor, encode_tensor, decode_tensor}
use common_network.Net.Protocol.Sampling.{is_number, to_float}

-- `CAPS`
abbrev pub capabilities : List String
capabilities =
    "ids_in" ∷ "head_out" ∷ "chain_v1" ∷ "chain_private_v1" ∷ "activation_int8_group_v1"
    ∷ "activation_int4_group_v1" ∷ "rtc_v1" ∷ "rtc_private_v1" ∷ []

-- `[c for c in caps if c in CAPS]`
unfoldable pub known_caps : List String → List String
known_caps caps = keep_if (λ (c : String). any (λ (known : String). known == c) capabilities) caps

module _ {Real : Type 0} where
  unfoldable pub encode_session_request : String → Result Raised (Fields Real)
  encode_session_request session_id = do
    id ← check_session_id {Real = Real} (text session_id)
    ok (field "id" (text id) end)

  unfoldable pub decode_session_request : Json Real → Result Raised String
  decode_session_request j = do
    fs ← fields_of j "session request" ("id" ∷ []) []
    check_session_id (← item "id" fs)

  unfoldable pub check_length : Json Real → Result Raised ℕ
  check_length (int n) = ok n
  check_length _ = refused "length must be a non-negative int"

  unfoldable pub encode_truncate_request : String → ℕ → Result Raised (Fields Real)
  encode_truncate_request session_id length = do
    n ← check_length (int length)
    id ← check_session_id {Real = Real} (text session_id)
    ok (field "id" (text id) (field "length" (int n) end))

  unfoldable pub decode_truncate_request : Json Real → Result Raised (String × ℕ)
  decode_truncate_request j = do
    fs ← fields_of j "truncate request" ("id" ∷ "length" ∷ []) []
    id ← check_session_id (← item "id" fs)
    n ← check_length (← item "length" fs)
    ok (id, n)

  unfoldable pub encode_ok : Fields Real
  encode_ok = field "ok" (flag true) end

  -- `value is True`
  unfoldable pub is_true : Json Real → Bool
  is_true (flag true) = true
  is_true _ = false

  unfoldable pub decode_ok : Json Real → Result Raised (Unit {0})
  decode_ok j = do
    fs ← fields_of j "reply" ("ok" ∷ []) []
    v ← item "ok" fs
    guard (is_true v) (protocol_error "reply does not say ok")

  unfoldable pub encode_error : String → Fields Real
  encode_error message = field "ok" (flag false) (field "error" (text message) end)

  -- `if caps: out["caps"] = ...`
  unfoldable pub with_caps : List String → Fields Real → Fields Real
  with_caps [] out = out
  with_caps (c ∷ caps) out = set "caps" (arr (text_items (known_caps (c ∷ caps)))) out

  unfoldable pub encode_health : ℕ × ℕ → String → List String → Result Raised (Fields Real)
  encode_health layers device caps = do
    (start, stop) ← check_layers {Real = Real} (arr (cons (int layers.0) (cons (int layers.1) nil)))
    let out = field "ok" (flag true) (
        field "layers" (arr (cons (int start) (cons (int stop) nil)))
          (field "device" (text device) end))
    ok (with_caps caps out)

  -- `tuple(c for c in caps if isinstance(c, str))`
  unfoldable pub texts : Items Real → List String
  texts nil = []
  texts (cons (text s) xs) = s ∷ texts xs
  texts (cons _ xs) = texts xs

  unfoldable pub decode_health_caps : Json Real → List String
  decode_health_caps (obj fs) = elim (get "caps" fs) [ some (arr xs) ↦ texts xs | _ ↦ [] ]
  decode_health_caps _ = []

  unfoldable pub check_device : Json Real → Result Raised String
  check_device (text s) = ok s
  check_device _ = refused "health reply device must be a string"

  unfoldable pub decode_health : Json Real → Result Raised ((ℕ × ℕ) × String)
  decode_health j = do
    fs ← fields_of j "health reply" ("ok" ∷ "layers" ∷ "device" ∷ []) ("caps" ∷ [])
    v ← item "ok" fs
    guard (is_true v) (protocol_error "health reply does not say ok")
    device ← check_device (← item "device" fs)
    layers ← check_layers (← item "layers" fs)
    ok (layers, device)

  module _ (b64 : Base64) where
    unfoldable pub encode_forward_reply : Tensor → Fields Real
    encode_forward_reply hidden = encode_tensor b64 hidden

    unfoldable pub decode_forward_reply : Json Real → Result Raised Tensor
    decode_forward_reply j = decode_tensor b64 j "forward reply"

module _ (F : Floats) where
  -- `math.isfinite(value)`, which raises for an integer that is no float
  unfoldable pub is_finite : Json F.Real → Result Raised Bool
  is_finite j = elim (to_float F j) [ none ↦ err overflow_error | some x ↦ ok (F.is_finite x) ]

  -- `0 <= value <= 1e9`; integers are compared exactly
  unfoldable pub is_share : Json F.Real → Bool
  is_share (int n) = leb n 1000000000
  is_share (real x) = F.at_least_0 x && F.at_most x 1000000000
  is_share _ = false

  -- The milliseconds on the network, as they are checked in both directions.
  unfoldable pub check_network_ms : Json F.Real → Result Raised F.Real
  check_network_ms j = do
    guard (is_number F j) (protocol_error "network_ms must be finite and non-negative")
    finite ← is_finite j
    guard finite (protocol_error "network_ms must be finite and non-negative")
    guard (is_share j) (protocol_error "network_ms must be finite and non-negative")
    elim (to_float F j) [ none ↦ err overflow_error | some x ↦ ok x ]

  unfoldable pub encode_close_request :
      String → Option (Json F.Real) → Result Raised (Fields F.Real)
  encode_close_request session_id none = encode_session_request session_id
  encode_close_request session_id (some network_ms) = do
    out ← encode_session_request session_id
    x ← check_network_ms network_ms
    ok (set "network_ms" (real (F.round_3 x)) out)

  unfoldable pub optional_ms : Option (Json F.Real) → Result Raised (Option F.Real)
  optional_ms none = ok none
  optional_ms (some null) = ok none
  optional_ms (some j) = do x ← check_network_ms j; ok (some x)

  unfoldable pub decode_close_request : Json F.Real → Result Raised (String × Option F.Real)
  decode_close_request j = do
    fs ← fields_of j "close request" ("id" ∷ []) ("network_ms" ∷ [])
    id ← check_session_id (← item "id" fs)
    network_ms ← optional_ms (get "network_ms" fs)
    ok (id, network_ms)
