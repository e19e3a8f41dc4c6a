-- ===== src/Net/Protocol/Tensors.antt =====
-- commonnet/net/protocol.py: tensors on the wire, whose bytes agree with their shape and type.
pub mod Round
use common_network.Prelude.{
  ℕ, zero, suc, ◌+◌, ◌-◌, ◌*◌, ◌/◌, ◌%◌, ◌^◌, ◌≤◌, ◌<◌, min, max, String, ◌≡◌, refl, sym, ap, ◌∙◌,
  ◌≢◌, ◌↔◌, ◌⊎◌, inl, inr, Bool, true, false, ◌&&◌, ◌||◌, not, Option, none, some, List, [], ◌∷◌,
  ◌++◌, map, reverse, arith, ltb, leb, same_number, if◌then◌else◌, ◌==◌, text_eq, number_eq, length,
  take, drop, keep_if, count_if, any, all, All, ltb→lt, ltb→ge, leb→le, leb→gt, Bool-cases,
  Option-cases, either_of, by_test, length-append, length-map, map-append,
}
use common_network.Prelude.Result.{Result, ok, err, ◌>>=◌, ◌>>◌, guard, Gives, Gives->>=}
use common_network.Net.Json.{
  Raised, protocol_error, key_error, overflow_error, Json, null, flag, int, negative, real, text,
  arr, obj, Items, nil, cons, Fields, end, field, items_length, int_items, item,
}
use Prim.Native.String.{◌++◌ as joined}
use common_network.Net.Protocol.{
  Base64, shape_rank, dtype_width, numel, refused, check_dims, check_shape, check_dtype, fields_of,
}

-- A tensor: its dimensions, its type and its bytes.
pub record Tensor : Type 0 where
  pub shape : List ℕ
  pub dtype : String
  pub bytes : List ℕ

-- Three positive dimensions, a known type, and as many bytes as they need.
pub record IsTensor (t : Tensor) : Type 0 where
  pub rank : length t.shape ≡ shape_rank
  pub dims : All (λ (n : ℕ). 1 ≤ n) t.shape
  pub width : ℕ
  pub known : dtype_width t.dtype ≡ some width
  pub size : length t.bytes ≡ numel t.shape * width

-- `DTYPE_WIDTH[dtype]`
unfoldable pub width_of : String → ℕ
width_of dtype = elim (dtype_width dtype) [ none ↦ 0 | some w ↦ w ]

module _ {Real : Type 0} where
  -- `Tensor(shape, dtype, data)`
  unfoldable pub tensor : Json Real → Json Real → List ℕ → Result Raised Tensor
  tensor shape dtype bytes = do
    dims ← check_shape shape
    name ← check_dtype dtype
    guard (length bytes == numel dims * width_of name)
        (protocol_error "tensor data is of another size")
    ok (record { shape = dims; dtype = name; bytes = bytes })

  module _ (b64 : Base64) where
    unfoldable pub encode_tensor : Tensor → Fields Real
    encode_tensor t =
        field "shape" (arr (int_items t.shape))
          (field "dtype" (text t.dtype) (field "data" (text (b64.b64encode t.bytes)) end))

    -- The bytes of a base64 text.
    unfoldable pub raw_bytes : String → Json Real → Result Raised (List ℕ)
    raw_bytes what (text s) = elim (b64.b64decode s) [
      | none ↦ refused (joined what " data is not valid base64")
      | some bytes ↦ ok bytes
    ]
    raw_bytes what _ = refused (joined what " data must be a base64 string")

    unfoldable pub is_array : Json Real → Bool
    is_array (arr xs) = true
    is_array _ = false

    unfoldable pub decode_tensor : Json Real → String → Result Raised Tensor
    decode_tensor j what = do
      fs ← fields_of j what ("shape" ∷ "dtype" ∷ "data" ∷ []) []
      shape ← item "shape" fs
      guard (is_array shape) (protocol_error (joined what " shape must be a JSON array"))
      data_text ← item "data" fs
      bytes ← raw_bytes what data_text
      dtype ← item "dtype" fs
      tensor shape dtype bytes
