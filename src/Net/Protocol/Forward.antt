-- ===== src/Net/Protocol/Forward.antt =====
-- commonnet/net/protocol.py: the body of a forward request, its three decoders and two encoders.
-- The arguments of an encoder have the types that its annotations name, and positions and token ids
-- are natural numbers.
pub mod Ids
pub mod Reading
pub mod Round
pub mod Sound
pub mod Older
use common_network.Prelude.{
  ℕ, zero, suc, ◌+◌, ◌-◌, ◌*◌, ◌/◌, ◌%◌, ◌^◌, ◌≤◌, ◌<◌, min, max, String, ◌≡◌, refl, sym, ap, ◌∙◌,
  ◌≢◌, ◌↔◌, ◌⊎◌, inl, inr, Bool, true, false, ◌&&◌, ◌||◌, not, Option, none, some, List, [], ◌∷◌,
  ◌++◌, map, reverse, arith, ltb, leb, same_number, if◌then◌else◌, ◌==◌, text_eq, number_eq, length,
  take, drop, keep_if, count_if, any, all, All, ltb→lt, ltb→ge, leb→le, leb→gt, Bool-cases,
  Option-cases, either_of, by_test, length-append, length-map, map-append,
}
use common_network.Prelude.Result.{Result, ok, err, ◌>>=◌, ◌>>◌, guard}
use common_network.Net.Json.{
  Raised, protocol_error, key_error, overflow_error, Json, null, flag, int, negative, real, text,
  arr, obj, Items, nil, cons, Fields, end, field, items_length, int_items, item, has, get, set,
  update, picked,
}
use common_network.Net.Protocol.{
  Floats, Base64, refused, fields_of, check_session_id, check_start_pos,
}
use common_network.Net.Protocol.Tensors.{Tensor, IsTensor, encode_tensor, decode_tensor}
use common_network.Net.Protocol.Sampling.{Sampling, IsSampling, check_sampling, sampling_value}
use common_network.Net.Protocol.Forward.Ids.{check_ids}

pub record ForwardRequest (Real : Type 0) : Type 0 where
  pub session_id : String
  pub start_pos : ℕ
  pub hidden : Option Tensor
  pub ids : Option (List ℕ)
  pub truncate_to : Option ℕ
  pub output : Option String
  pub which : String
  pub sampling : Option (Sampling Real)

abbrev pub is_none {ℓ} : {A : Type ℓ} → Option A → Bool
is_none none = true
is_none (some a) = false

-- `body[key] = value` unless the value is absent
abbrev pub set_some : {Real : Type 0} → String → Option (Json Real) → Fields Real → Fields Real
set_some key none fs = fs
set_some key (some v) fs = set key v fs

abbrev pub optional_int : {Real : Type 0} → Option ℕ → Option (Json Real)
optional_int none = none
optional_int (some n) = some (int n)

abbrev pub tensor_keys : List String
tensor_keys = "shape" ∷ "dtype" ∷ "data" ∷ []

abbrev pub step_keys : List String
step_keys = "id" ∷ "start_pos" ∷ tensor_keys

abbrev pub ids_keys : List String
ids_keys = "id" ∷ "start_pos" ∷ "ids" ∷ []

abbrev pub output_keys : List String
output_keys = "truncate_to" ∷ "output" ∷ "which" ∷ "sampling" ∷ []

unfoldable pub is_which : String → Bool
is_which s = s == "last" || s == "all"

module _ {Real : Type 0} where
  -- `check_start_pos(obj[key]) if key in obj else None`
  unfoldable pub check_cut : Option (Json Real) → Result Raised (Option ℕ)
  check_cut none = ok none
  check_cut (some j) = do n ← check_start_pos j; ok (some n)

  -- `isinstance(obj, dict) and key in obj`
  unfoldable pub has_key : String → Json Real → Bool
  has_key key (obj fs) = has key fs
  has_key key _ = false

  -- The output that is asked for, if any.
  unfoldable pub check_output : Option (Json Real) → Result Raised (Option String)
  check_output none = ok none
  check_output (some null) = ok none
  check_output (some (text s)) = if s == "ids" then ok (some s) else refused "output must be one of"
  check_output (some _) = refused "output must be one of"

  -- The text of `obj.get("which", "last")`, when it is among `WHICH`.
  unfoldable pub which_of : Option (Json Real) → Option String
  which_of none = some "last"
  which_of (some (text s)) = if is_which s then some s else none
  which_of (some _) = none

  unfoldable pub check_which : Fields Real → Option String → Result Raised String
  check_which fs output = elim (which_of (get "which" fs)) [
    | none ↦ refused "which and sampling need output"
    | some w ↦
        if (has "which" fs || has "sampling" fs) && is_none output
        then refused "which and sampling need output"
        else ok w
  ]

  module _ (b64 : Base64) where
    -- The fields of the session and the positions, then the tensor.
    abbrev pub first_fields : String → ℕ → Option ℕ → Result Raised (Fields Real)
    first_fields session_id start_pos truncate_to = do
      id ← check_session_id {Real = Real} (text session_id)
      pos ← check_start_pos {Real = Real} (int start_pos)
      cut ← check_cut (optional_int truncate_to)
      ok (
          set_some "truncate_to" (optional_int cut)
            (field "id" (text id) (field "start_pos" (int pos) end)))

    unfoldable pub encode_forward_request :
        String → Tensor → ℕ → Option ℕ → Result Raised (Fields Real)
    encode_forward_request session_id hidden start_pos truncate_to = do
      body ← first_fields session_id start_pos truncate_to
      ok (update body (encode_tensor b64 hidden))

    -- `decode_tensor({key: obj[key] for key in ("shape", "dtype", "data")}, "forward request")`
    unfoldable pub picked_tensor : Fields Real → Result Raised Tensor
    picked_tensor fs = do
      parts ← picked tensor_keys fs
      decode_tensor b64 (obj parts) "forward request"

    unfoldable pub decode_forward_request : Json Real → Result Raised (String × ℕ × Tensor)
    decode_forward_request j = do
      fs ← fields_of j "forward request" step_keys []
      id ← check_session_id (← item "id" fs)
      pos ← check_start_pos (← item "start_pos" fs)
      hidden ← picked_tensor fs
      ok (id, pos, hidden)

    unfoldable pub decode_forward_request_full :
        Json Real → Result Raised (String × ℕ × Tensor × Option ℕ)
    decode_forward_request_full j = do
      fs ← fields_of j "forward request" step_keys ("truncate_to" ∷ [])
      id ← check_session_id (← item "id" fs)
      pos ← check_start_pos (← item "start_pos" fs)
      cut ← check_cut (get "truncate_to" fs)
      hidden ← picked_tensor fs
      ok (id, pos, hidden, cut)

module _ (F : Floats) (b64 : Base64) where
  -- The ids or the tensor, which one of them is there.
  unfoldable pub with_input :
      Option Tensor → Option (List ℕ) → Fields F.Real → Result Raised (Fields F.Real)
  with_input hidden (some ids) body = do
    checked ← check_ids {Real = F.Real} (arr (int_items ids))
    ok (set "ids" (arr (int_items checked)) body)
  with_input (some hidden) none body = ok (update body (encode_tensor b64 hidden))
  with_input none none body =
      refused "a forward request carries hidden or ids, not both and not neither"

  -- `which or "last"`
  abbrev pub which_or_last : Option String → String
  which_or_last none = "last"
  which_or_last (some w) = if w == "" then "last" else w

  abbrev pub sampling_field : Option (Json F.Real) → Result Raised (Option (Json F.Real))
  sampling_field none = ok none
  sampling_field (some j) = do s ← check_sampling F j; ok (some (sampling_value F s))

  unfoldable pub with_output :
      Option String
      → Option String
      → Option (Json F.Real)
      → Fields F.Real
      → Result Raised (Fields F.Real)
  with_output none which sampling body = ok body
  with_output (some output) which sampling body = do
    guard (output == "ids") (protocol_error "output must be one of")
    s ← sampling_field sampling
    ok (
        set_some "sampling" s
          (set "which" (text (which_or_last which)) (set "output" (text output) body)))

  unfoldable pub encode_forward_request_ex :
      String
      → Option Tensor
      → ℕ
      → Option ℕ
      → Option (List ℕ)
      → Option String
      → Option String
      → Option (Json F.Real)
      → Result Raised (Fields F.Real)
  encode_forward_request_ex session_id hidden start_pos truncate_to ids output which sampling = do
    guard (is_none hidden && not (is_none ids) || not (is_none hidden) && is_none ids)
        (protocol_error "a forward request carries hidden or ids, not both and not neither")
    body ← first_fields b64 session_id start_pos truncate_to
    given ← with_input hidden ids body
    with_output output which sampling given

  -- The ids of a body that has them.
  unfoldable pub decode_ids :
      Json F.Real → Result Raised (Fields F.Real × Option Tensor × Option (List ℕ))
  decode_ids j = do
    fs ← fields_of j "forward request" ids_keys output_keys
    ids ← check_ids (← item "ids" fs)
    ok (fs, none, some ids)

  -- The tensor of any other.
  unfoldable pub decode_hidden :
      Json F.Real → Result Raised (Fields F.Real × Option Tensor × Option (List ℕ))
  decode_hidden j = do
    fs ← fields_of j "forward request" step_keys output_keys
    hidden ← picked_tensor b64 fs
    ok (fs, some hidden, none)

  unfoldable pub decode_input :
      Json F.Real → Result Raised (Fields F.Real × Option Tensor × Option (List ℕ))
  decode_input j = if has_key "ids" j then decode_ids j else decode_hidden j

  -- The rest of a body, whose input is read.
  unfoldable pub decode_rest :
      Fields F.Real → Option Tensor → Option (List ℕ) → Result Raised (ForwardRequest F.Real)
  decode_rest fs hidden ids = do
    output ← check_output (get "output" fs)
    which ← check_which fs output
    id ← check_session_id (← item "id" fs)
    pos ← check_start_pos (← item "start_pos" fs)
    cut ← check_cut (get "truncate_to" fs)
    sampling ← check_sampling F (elim (get "sampling" fs) [ none ↦ null | some v ↦ v ])
    ok (record {
      session_id = id;
      start_pos = pos;
      hidden = hidden;
      ids = ids;
      truncate_to = cut;
      output = output;
      which = which;
      sampling = sampling;
    })

  unfoldable pub decode_forward_request_ex : Json F.Real → Result Raised (ForwardRequest F.Real)
  decode_forward_request_ex j = do got ← decode_input j; decode_rest got.0 got.1 got.2
