-- ===== src/Net/Protocol/Tests.antt =====
-- Runs of the encoders and the decoders, and the theorems there.
use common_network.Prelude.{
  ℕ, ◌^◌, ◌≡◌, refl, true, Option, none, some, [], ◌∷◌, arith, text_eq, number_eq,
}
use common_network.Prelude.Result.{ok, err, ◌>>=◌}
use common_network.Net.Protocol.Examples.{whole, unary}
use common_network.Net.Json.{
  protocol_error, overflow_error, Json, int, text, arr, obj, nil, cons, end, field,
}
use common_network.Net.Protocol.{
  dtype_width, numel, is_session_id, fields_of, check_session_id, is_letter_or_digit, is_id_char,
  all_chars,
}
use common_network.Net.Protocol.Tensors.{Tensor, IsTensor}
use common_network.Net.Protocol.Sampling.{is_number, to_float}
use common_network.Net.Protocol.Forward.{
  ForwardRequest, is_which, encode_forward_request, decode_forward_request,
  decode_forward_request_ex,
}
use common_network.Net.Protocol.Forward.Round.{
  IsForwardRequest, encoded, decode_forward_request_ex-encode,
}
use common_network.Net.Protocol.Forward.Older.{decode_forward_request-encode}
use common_network.Net.Protocol.Short.{
  decode_close_request, check_network_ms, optional_ms, is_finite, encode_health, decode_health,
  decode_health_caps, known_caps,
}
use common_network.Net.Protocol.Short.Round.{decode_health-encode}
use common_network.Prelude.Text.{text_length}

abbrev asked : ForwardRequest (Option ℕ)
asked = record {
  session_id = "s-1";
  start_pos = 4;
  hidden = none;
  ids = some (5 ∷ 7 ∷ []);
  truncate_to = some 4;
  output = some "ids";
  which = "all";
  sampling = some (record { temperature = some 2; top_p = some 1; seed = 9 });
}

abbrev half_pair : Tensor
half_pair = record { shape = 1 ∷ 2 ∷ 1 ∷ []; dtype = "float16"; bytes = 1 ∷ 0 ∷ 2 ∷ 0 ∷ [] }

known_half : dtype_width "float16" ≡ some 2
unfolding dtype_width
known_half = refl

half_pair-numel : numel (1 ∷ 2 ∷ 1 ∷ []) ≡ 2
unfolding numel
half_pair-numel = refl

half_pair-IsTensor : IsTensor half_pair
half_pair-IsTensor = record {
  rank = refl;
  dims = (omega arith, (omega arith, (omega arith, tt)));
  width = 2;
  known = known_half;
  size = omega (arith, half_pair-numel);
}

s_1-is_session_id : is_session_id "s-1" ≡ true
unfolding is_session_id is_letter_or_digit is_id_char all_chars text_length
s_1-is_session_id = refl

all-is_which : is_which "all" ≡ true
unfolding is_which
all-is_which = refl

asked-IsForwardRequest : IsForwardRequest whole asked
asked-IsForwardRequest = record {
  named = s_1-is_session_id;
  input = (omega arith, omega arith);
  asked = (refl, all-is_which, refl);
}

decode_forward_request_ex-encode_example :
    (encoded whole unary asked >>= λ body. decode_forward_request_ex whole unary (obj body))
    ≡ ok asked
decode_forward_request_ex-encode_example =
    decode_forward_request_ex-encode whole unary asked asked-IsForwardRequest

-- A body of one token id.
abbrev one_id : Json (Option ℕ)
one_id =
    obj (
      field "id" (text "s-1")
        (field "start_pos" (int 0) (field "ids" (arr (cons (int 3) nil)) end)))

decode_forward_request-encode_example :
    (encode_forward_request {Real = Option ℕ} unary "s-1" half_pair 4 (some 4) >>= λ body.
    decode_forward_request unary (obj body))
    ≡ err (protocol_error "forward request has unknown fields")
decode_forward_request-encode_example =
    decode_forward_request-encode whole unary "s-1" half_pair 4 (some 4) s_1-is_session_id
      half_pair-IsTensor

decode_health-encode_example :
    ((encode_health {Real = Option ℕ} (0, 8) "cpu" ("ids_in" ∷ "new" ∷ []) >>= λ body.
    decode_health (obj body))
      ≡ ok ((0, 8), "cpu"))
    × ((encode_health {Real = Option ℕ} (0, 8) "cpu" ("ids_in" ∷ "new" ∷ []) >>= λ body.
          ok (decode_health_caps (obj body)))
        ≡ ok (known_caps ("ids_in" ∷ "new" ∷ [])))
decode_health-encode_example =
    decode_health-encode (Option ℕ) 0 8 "cpu" ("ids_in" ∷ "new" ∷ []) (omega arith)

-- An integer that is no float leaves the decoder of a close request as an `OverflowError`.
close_overflows :
    decode_close_request whole
      (obj (field "id" (text "s-1") (field "network_ms" (int (2 ^ 1024)) end)))
    ≡ err overflow_error
unfolding decode_close_request fields_of check_session_id is_session_id is_letter_or_digit
    is_id_char all_chars text_length optional_ms check_network_ms is_number is_finite to_float
close_overflows = refl
