-- ===== src/Net/Protocol/Tensors/Round.antt =====
-- Tensors through the wire and back, and what a decoded tensor is.
use common_network.Prelude.{
  ℕ, zero, suc, ◌*◌, ◌≤◌, String, ◌≡◌, refl, ap, ◌∙◌, true, some, List, [], ◌∷◌, arith, ◌==◌,
  text_eq, number_eq, length, All,
}
use common_network.Prelude.Result.{ok, Gives, Gives->>=, Gives-guard, Gives-any}
use common_network.Net.Json.{Json, text, arr, obj, Fields, items_length, int_items, has}
use common_network.Net.Protocol.{
  Base64, shape_rank, dtype_width, numel, check_dims, check_shape, check_dtype, fields_of,
}
use common_network.Net.Protocol.Tensors.{
  Tensor, IsTensor, width_of, tensor, encode_tensor, raw_bytes, is_array, decode_tensor,
}
use common_network.Net.Protocol.Checked.{
  IsProtocolError, fields_of-Gives, Gives-item, check_shape-Gives, check_dtype-Gives,
}

module _ (Real : Type 0) where
  pub items_length-int_items : (ns : List ℕ) → items_length {Real = Real} (int_items ns) ≡ length ns
  items_length-int_items [] = refl
  items_length-int_items (n ∷ ns) = ap suc (items_length-int_items ns)

  check_dims-int_items :
      (ns : List ℕ) → All (λ (n : ℕ). 1 ≤ n) ns → check_dims {Real = Real} (int_items ns) ≡ ok ns
  unfolding check_dims
  check_dims-int_items [] h = refl
  check_dims-int_items (zero ∷ ns) h = absurd (omega (arith, h.0))
  check_dims-int_items (suc n ∷ ns) h = rw (check_dims-int_items ns h.1)

  check_shape-ok :
      {t : Tensor} → IsTensor t → check_shape {Real = Real} (arr (int_items t.shape)) ≡ ok t.shape
  unfolding check_shape
  check_shape-ok {t} v =
      ground (arith, items_length-int_items t.shape, check_dims-int_items t.shape v.dims, v.rank)

  check_dtype-ok : {t : Tensor} → IsTensor t → check_dtype {Real = Real} (text t.dtype) ≡ ok t.dtype
  unfolding check_dtype
  check_dtype-ok {t} v = rw (check_dtype, v.known) refl

  size-ok : {t : Tensor} → IsTensor t → (length t.bytes == numel t.shape * width_of t.dtype) ≡ true
  unfolding width_of
  size-ok {t} v = (number_eq.agrees _ _).1 (rw (width_of, v.known) (v.size))

  tensor-ok :
      {t : Tensor}
      → IsTensor t
      → tensor {Real = Real} (arr (int_items t.shape)) (text t.dtype) t.bytes ≡ ok t
  unfolding tensor width_of
  tensor-ok {t} v = rw (check_shape-ok v, check_dtype-ok v, size-ok v) refl

  module _ (b64 : Base64) where
    pub decode_tensor-encode_tensor :
        (t : Tensor) (what : String)
        → IsTensor t
        → decode_tensor {Real = Real} b64 (obj (encode_tensor b64 t)) what ≡ ok t
    unfolding decode_tensor encode_tensor fields_of is_array raw_bytes
    decode_tensor-encode_tensor t what v =
        let raw : raw_bytes {Real = Real} b64 what (text (b64.b64encode t.bytes)) ≡ ok t.bytes =
          rw (raw_bytes, b64.decode-encode t.bytes) refl in
        rw (raw, tensor-ok v) refl

bytes-size :
    (name : String) (w n m : ℕ)
    → dtype_width name ≡ some w
    → (n == m * width_of name) ≡ true
    → n ≡ m * w
unfolding width_of
bytes-size name w n m e h = (number_eq.agrees _ _).0 h ∙ rw (width_of, e) refl

module _ {Real : Type 0} where
  pub tensor-Gives :
      (shape dtype : Json Real) (bytes : List ℕ)
      → Gives IsProtocolError IsTensor (tensor shape dtype bytes)
  unfolding tensor
  tensor-Gives shape dtype bytes =
      Gives->>= IsProtocolError _ IsTensor (check_shape shape) _ (check_shape-Gives shape)
        (λ (dims : List ℕ) (h : (length dims ≡ shape_rank) × All (λ (n : ℕ). 1 ≤ n) dims).
          Gives->>= IsProtocolError _ IsTensor (check_dtype dtype) _ (check_dtype-Gives dtype)
            (λ (name : String) (k : (w : ℕ) × (dtype_width name ≡ some w)).
              Gives-guard IsProtocolError IsTensor (length bytes == numel dims * width_of name) _ _
                tt
                (λ e. record {
                  rank = h.0;
                  dims = h.1;
                  width = k.0;
                  known = k.1;
                  size = bytes-size name k.0 _ _ k.1 e;
                })))

  module _ (b64 : Base64) where
    raw_bytes-Gives :
        (what : String) (j : Json Real)
        → Gives IsProtocolError (λ (bytes : List ℕ). Unit {0}) (raw_bytes b64 what j)
    unfolding raw_bytes
    raw_bytes-Gives what j = ground arith

    -- What is decoded is a tensor; else a `ProtocolError` is raised.
    pub decode_tensor-Gives :
        (j : Json Real) (what : String) → Gives IsProtocolError IsTensor (decode_tensor b64 j what)
    unfolding decode_tensor
    decode_tensor-Gives j what =
        Gives->>= IsProtocolError _ IsTensor (fields_of j what _ _) _ (fields_of-Gives j what _ _)
          (λ (fs : Fields Real)
              (h : All (λ (k : String). has k fs ≡ true) ("shape" ∷ "dtype" ∷ "data" ∷ [])).
            Gives-item IsTensor "shape" fs _ h.0 (λ (shape : Json Real).
              Gives-guard IsProtocolError IsTensor (is_array b64 shape) _ _ tt (λ e.
                Gives-item IsTensor "data" fs _ h.1.1.0 (λ (data_text : Json Real).
                  Gives-any IsProtocolError IsTensor (raw_bytes b64 what data_text) _
                    (raw_bytes-Gives what data_text)
                    (λ (bytes : List ℕ).
                      Gives-item IsTensor "dtype" fs _ h.1.0
                        (λ (dtype : Json Real). tensor-Gives shape dtype bytes))))))
