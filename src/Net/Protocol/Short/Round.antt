-- ===== src/Net/Protocol/Short/Round.antt =====
-- The short messages through the wire and back.
use common_network.Prelude.{
  ℕ, ◌≤◌, ◌<◌, String, ◌≡◌, refl, ap, inl, inr, Bool, true, ◌&&◌, some, List, [], ◌∷◌, arith,
  text_eq, number_eq, Option-cases,
}
use common_network.Prelude.Result.{ok, ◌>>=◌, Gives, Gives-ok}
use common_network.Net.Json.{
  Raised, Json, null, flag, int, negative, real, text, arr, obj, nil, cons, text_items,
}
use common_network.Net.Protocol.{Floats, fields_of, check_session_id, check_layers, is_session_id}
use common_network.Net.Protocol.Sampling.{is_number, to_float}
use common_network.Net.Protocol.Short.{
  encode_session_request, encode_truncate_request, decode_truncate_request, check_length,
  encode_close_request, decode_close_request, optional_ms, check_network_ms, is_share, is_finite,
  encode_health, decode_health, decode_health_caps, texts, known_caps, with_caps, is_true,
  check_device,
}

known_caps-none : known_caps [] ≡ []
unfolding known_caps
known_caps-none = refl

module _ (Real : Type 0) where
  encoded_id :
      (s : String) → is_session_id s ≡ true → check_session_id {Real = Real} (text s) ≡ ok s
  unfolding check_session_id
  encoded_id s h = rw (check_session_id, h) refl

  -- A cut to some length is decoded from its encoding.
  pub decode_truncate_request-encode :
      (s : String) (n : ℕ)
      → is_session_id s ≡ true
      → (encode_truncate_request {Real = Real} s n >>= λ body. decode_truncate_request (obj body))
        ≡ ok (s, n)
  unfolding encode_truncate_request decode_truncate_request check_length fields_of
  decode_truncate_request-encode s n h = rw (encoded_id s h, encoded_id s h) refl

  check_layers-ok :
      (start stop : ℕ)
      → start < stop
      → check_layers {Real = Real} (arr (cons (int start) (cons (int stop) nil))) ≡ ok (start, stop)
  unfolding check_layers
  check_layers-ok start stop h = ground arith

  texts-text_items : (caps : List String) → texts {Real = Real} (text_items caps) ≡ caps
  unfolding texts
  texts-text_items [] = refl
  texts-text_items (c ∷ caps) = ap (◌∷◌ c) (texts-text_items caps)

  -- For a range of layers that is not empty, a health reply is decoded to the layers and the device,
  -- and to those of the capabilities that are known.
  pub decode_health-encode :
      (start stop : ℕ) (device : String) (caps : List String)
      → start < stop
      → ((encode_health {Real = Real} (start, stop) device caps >>= λ body.
            decode_health (obj body))
          ≡ ok ((start, stop), device))
        × ((encode_health {Real = Real} (start, stop) device caps >>= λ body.
              ok (decode_health_caps (obj body)))
            ≡ ok (known_caps caps))
  unfolding encode_health with_caps decode_health decode_health_caps fields_of is_true check_device
  decode_health-encode start stop device [] h = (
    rw (check_layers-ok start stop h, check_layers-ok start stop h) refl,
    rw (known_caps-none, check_layers-ok start stop h) refl,
  )
  decode_health-encode start stop device (c ∷ caps) h = (
    rw (check_layers-ok start stop h, check_layers-ok start stop h) refl,
    rw (check_layers-ok start stop h, texts-text_items (known_caps (c ∷ caps))) refl,
  )

-- The float is finite, at least 0 and at most 10^9.
abbrev pub is_ms : (F : Floats) → F.Real → Bool
is_ms F x = F.is_finite x && (F.at_least_0 x && F.at_most x 1000000000)

-- Rounding to three places stays in the range, and so does an integer in the range as a float.
pub record Faithful (F : Floats) : Type 0 where
  pub rounds : (x : F.Real) → is_ms F x ≡ true → is_ms F (F.round_3 x) ≡ true
  pub converts : (n : ℕ) (x : F.Real) → n ≤ 1000000000 → F.of_int n ≡ some x → is_ms F x ≡ true

module _ (F : Floats) where
  check_network_ms-real : (x : F.Real) → is_ms F x ≡ true → check_network_ms F (real x) ≡ ok x
  unfolding check_network_ms is_number is_finite to_float is_share
  check_network_ms-real x h = ground arith

  check_network_ms-Gives :
      Faithful F
      → (v : Json F.Real)
      → Gives (λ (e : Raised). Unit {0}) (λ (x : F.Real). is_ms F x ≡ true) (check_network_ms F v)
  unfolding check_network_ms is_number is_finite to_float is_share
  check_network_ms-Gives q (int n) = elim (Option-cases (F.of_int n)) [
    | inl e ↦ ground (arith, e)
    | inr (x, e) ↦ ground (arith, e, q.converts n x)
  ]
  check_network_ms-Gives q (negative n) = ground arith
  check_network_ms-Gives q (real x) = ground arith
  check_network_ms-Gives q null = tt
  check_network_ms-Gives q (flag b) = tt
  check_network_ms-Gives q (text s) = tt
  check_network_ms-Gives q (arr xs) = tt
  check_network_ms-Gives q (obj fs) = tt

  -- A share of the network that is accepted is sent as it is read, rounded to three places.
  pub decode_close_request-encode :
      (s : String) (v : Json F.Real) (x : F.Real)
      → Faithful F
      → is_session_id s ≡ true
      → check_network_ms F v ≡ ok x
      → (encode_close_request F s (some v) >>= λ body. decode_close_request F (obj body))
        ≡ ok (s, some (F.round_3 x))
  unfolding encode_close_request encode_session_request decode_close_request optional_ms fields_of
  decode_close_request-encode s v x q h e =
      rw
        (
          encoded_id F.Real s h,
          e,
          encoded_id F.Real s h,
          check_network_ms-real (F.round_3 x)
              (q.rounds x (Gives-ok _ _ _ (check_network_ms-Gives q v) x e)),
        )
        refl
