-- ===== src/Net/Protocol/Forward/Older.antt =====
-- The older form of a forward request, a tensor alone, among the newer encoder and decoders.
use common_network.Prelude.{ℕ, String, ◌≡◌, refl, true, Option, none, some, text_eq, number_eq}
use common_network.Prelude.Result.{Result, ok, err, ◌>>=◌}
use common_network.Net.Json.{
  Raised, protocol_error, Json, text, arr, obj, Fields, end, field, int_items, update,
}
use common_network.Net.Protocol.{Floats, Base64, fields_of, check_start_pos, is_session_id}
use common_network.Net.Protocol.Tensors.{Tensor, IsTensor, encode_tensor, decode_tensor}
use common_network.Net.Protocol.Tensors.Round.{decode_tensor-encode_tensor}
use common_network.Net.Protocol.Forward.{
  check_cut, picked_tensor, with_input, with_output, encode_forward_request_ex,
  encode_forward_request, decode_forward_request, decode_forward_request_full, first_fields,
}
use common_network.Net.Protocol.Forward.Reading.{check_session_id-ok}

module _ (F : Floats) (b64 : Base64) where
  -- Without ids and without an output the newer encoder gives the older body, whatever `which` and
  -- `sampling` are.
  pub encode_forward_request_ex-hidden :
      (s : String) (t : Tensor) (pos : ℕ) (cut : Option ℕ) (which : Option String)
      (sampling : Option (Json F.Real))
      → encode_forward_request_ex F b64 s (some t) pos cut none none which sampling
        ≡ encode_forward_request b64 s t pos cut
  unfolding encode_forward_request_ex encode_forward_request with_input with_output
  encode_forward_request_ex-hidden s t pos cut which sampling = bound (first_fields b64 s pos cut)
    where
      bound :
          (m : Result Raised (Fields F.Real))
          → (m >>= λ body. ok (update body (encode_tensor b64 t)) >>= λ given. ok given)
            ≡ (m >>= λ body. ok (update body (encode_tensor b64 t)))
      bound (ok body) = refl
      bound (err e) = refl

  decode_encoded :
      (t : Tensor)
      → IsTensor t
      → decode_tensor {Real = F.Real} b64
          (obj (
            field "shape"
              (arr (int_items t.shape))
              (field "dtype" (text t.dtype) (field "data" (text (b64.b64encode t.bytes)) end))))
          "forward request"
        ≡ ok t
  unfolding encode_tensor
  decode_encoded t k = decode_tensor-encode_tensor F.Real b64 t "forward request" k

  -- A server that knows no ids and no output reads the body of a tensor.
  pub decode_forward_request_full-encode :
      (s : String) (t : Tensor) (pos : ℕ) (cut : Option ℕ)
      → is_session_id s ≡ true
      → IsTensor t
      → (encode_forward_request {Real = F.Real} b64 s t pos cut >>= λ body.
          decode_forward_request_full b64 (obj body))
        ≡ ok (s, pos, t, cut)
  unfolding encode_forward_request decode_forward_request_full picked_tensor encode_tensor check_cut
      check_start_pos fields_of
  decode_forward_request_full-encode s t pos none h k =
      rw (check_session_id-ok F b64 s h, check_session_id-ok F b64 s h, decode_encoded t k) refl
  decode_forward_request_full-encode s t pos (some n) h k =
      rw (check_session_id-ok F b64 s h, check_session_id-ok F b64 s h, decode_encoded t k) refl

  -- The body of a tensor for a well-formed session id is read by the oldest server as it was, unless
  -- it asks for a cut, which that server refuses as an unknown field.
  pub decode_forward_request-encode :
      (s : String) (t : Tensor) (pos : ℕ) (cut : Option ℕ)
      → is_session_id s ≡ true
      → IsTensor t
      → (encode_forward_request {Real = F.Real} b64 s t pos cut >>= λ body.
          decode_forward_request b64 (obj body))
        ≡ elim cut [
          | none ↦ ok (s, pos, t)
          | some n ↦ err (protocol_error "forward request has unknown fields")
        ]
  unfolding encode_forward_request decode_forward_request picked_tensor encode_tensor check_cut
      check_start_pos fields_of
  decode_forward_request-encode s t pos none h k =
      rw (check_session_id-ok F b64 s h, check_session_id-ok F b64 s h, decode_encoded t k) refl
  decode_forward_request-encode s t pos (some n) h k = rw (check_session_id-ok F b64 s h) refl
