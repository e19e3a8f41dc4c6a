-- ===== src/Mesh/Records/Shape/Tests.antt =====
-- Records that are checked, and the theorem there.
use common_network.Prelude.{
  ℕ, zero, suc, ◌^◌, ◌≡◌, refl, true, false, Option, none, some, List, [], ◌∷◌, text_eq, number_eq,
}
use common_network.Prelude.Text.{text_length}
use common_network.Prelude.Result.{ok, err, Gives}
use common_network.Net.Json.{overflow_error, Json, int, text, arr, obj, nil, cons, end, field}
use common_network.Net.Protocol.Examples.{whole}
use common_network.Net.Protocol.Sampling.{is_number, to_float}
use common_network.Net.Protocol.Short.{is_finite}
use common_network.Net.Chain.{Python}
use common_network.Mesh.Records.Shape.{
  check_shape, check_signed, check_optional, check_texts, is_text, is_state, is_url, is_short,
  is_window, is_seq, is_version, check_port, check_speed, at_least_0, starts_with,
}
use common_network.Mesh.Records.Shape.Verify.{
  Keys, verify_record, verify_body, caught, text_at, bytes_of, check_signature, is_unpinned,
  is_bound, is_direct_url,
}
use common_network.Mesh.Records.Shape.Genuine.{IsUncaught, IsAccepted, verify_record-Gives}

-- Every url is split to no host, and no host is an address.
abbrev plain : Python
plain = record {
  urlsplit = λ url. none;
  ip_address = λ host. none;
  is_space = λ c. false;
  strip = λ s. s;
  lower = λ s. s;
}

abbrev zeros : ℕ → List ℕ
zeros zero = []
zeros (suc n) = 0 ∷ zeros n

-- Every text is 32 bytes, the hash of every key is "p", and every signature holds.
abbrev trusting : Keys (Option ℕ)
trusting = record {
  host_of = λ url. some "";
  is_address = λ host. false;
  b64d = λ s. some (zeros 32);
  peer_id = λ key. "p";
  signed_by = λ key signature fs. true;
  verify_binding = λ key fp signature. false;
}

abbrev with_speed : Json (Option ℕ) → Json (Option ℕ)
with_speed speed = obj (
    field "v" (int 1) (
      field "network" (text "n") (
        field "peer" (text "p") (
          field "pub" (text "k") (
            field "url" (text "https://one.example") (
              field "token" (text "") (
                field "window" (arr (cons (int 0) (cons (int 4) nil))) (
                  field "backend" (text "cpu") (
                    field "state" (text "up") (
                      field "gib" (int 8) (
                        field "seq" (int 1) (
                          field "ts" (int 1)
                            (field "speed" speed (field "sig" (text "s") end))))))))))))))

signed_is_accepted : verify_record whole plain trusting (with_speed (int 3)) ≡ ok true
unfolding verify_record verify_body caught check_shape check_signed check_optional check_texts
    is_text is_state is_url is_short is_window is_seq is_version check_port check_speed at_least_0
    starts_with is_number to_float is_finite text_at bytes_of check_signature is_unpinned is_bound
    is_direct_url text_length
signed_is_accepted = refl

-- A speed of 2^1024 leaves `verify_record` as an `OverflowError`.
speed_overflows :
    verify_record whole plain trusting (with_speed (int (2 ^ 1024))) ≡ err overflow_error
unfolding verify_record verify_body caught check_shape check_signed check_optional check_texts
    is_text is_state is_url is_short is_window is_seq is_version check_port check_speed at_least_0
    starts_with is_number to_float is_finite text_at bytes_of check_signature is_unpinned is_bound
    is_direct_url text_length
speed_overflows = refl

verify_record-Gives_example :
    Gives
      (IsUncaught whole (with_speed (int 3)))
      (IsAccepted whole plain trusting (with_speed (int 3)))
      (verify_record whole plain trusting (with_speed (int 3)))
verify_record-Gives_example = verify_record-Gives whole plain trusting (with_speed (int 3))
