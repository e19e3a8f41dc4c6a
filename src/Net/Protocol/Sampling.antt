-- ===== src/Net/Protocol/Sampling.antt =====
-- commonnet/net/protocol.py: the sampling of a forward request. Sampling an absent value is greedy.
use common_network.Prelude.{
  ℕ, String, ◌≡◌, refl, Bool, true, false, ◌&&◌, Option, none, some, [], ◌∷◌, arith, text_eq,
  number_eq, All,
}
use common_network.Prelude.Result.{
  Result, ok, ◌>>=◌, ◌>>◌, guard, Gives, Gives->>=, Gives-guard, Gives-any,
}
use common_network.Net.Json.{
  Raised, protocol_error, Json, null, flag, int, negative, real, text, arr, obj, Fields, end, field,
  item, has,
}
use common_network.Net.Protocol.{Floats, refused, fields_of}
use common_network.Net.Protocol.Checked.{IsProtocolError, fields_of-Gives, Gives-item}

pub record Sampling (Real : Type 0) : Type 0 where
  pub temperature : Real
  pub top_p : Real
  pub seed : ℕ

module _ (F : Floats) where
  -- `type(value) in (int, float)`
  unfoldable pub is_number : Json F.Real → Bool
  is_number (int n) = true
  is_number (negative n) = true
  is_number (real x) = true
  is_number _ = false

  -- `float(value)` of a number, when it does not overflow
  unfoldable pub to_float : Json F.Real → Option F.Real
  to_float (int n) = F.of_int n
  to_float (negative n) = F.of_negative n
  to_float (real x) = some x
  to_float _ = none

  unfoldable pub checked_float : Json F.Real → Result Raised F.Real
  checked_float j = elim (to_float j) [
    | none ↦ refused "sampling needs finite temperature and top_p"
    | some x ↦ ok x
  ]

  unfoldable pub check_seed : Json F.Real → Result Raised ℕ
  check_seed (int n) = ok n
  check_seed _ = refused "sampling seed must be a non-negative int"

  -- The ranges of the temperature and of the share.
  abbrev pub in_range : F.Real → F.Real → Bool
  in_range t p =
      (F.is_finite t && F.is_positive t) && (F.is_finite p && F.is_positive p && F.at_most p 1)

  unfoldable pub sampling_of : Fields F.Real → Result Raised (Sampling F.Real)
  sampling_of fs = do
    t ← item "temperature" fs
    p ← item "top_p" fs
    seed ← item "seed" fs
    guard (is_number t && is_number p)
        (protocol_error "sampling needs temperature > 0 and 0 < top_p <= 1")
    x ← checked_float t
    y ← checked_float p
    guard (in_range x y) (protocol_error "sampling needs temperature > 0 and 0 < top_p <= 1")
    n ← check_seed seed
    ok (record { temperature = x; top_p = y; seed = n })

  -- A sampling that is not null.
  unfoldable pub sampling_object : Json F.Real → Result Raised (Option (Sampling F.Real))
  sampling_object j = do
    fs ← fields_of j "sampling" ("temperature" ∷ "top_p" ∷ "seed" ∷ []) []
    s ← sampling_of fs
    ok (some s)

  unfoldable pub check_sampling : Json F.Real → Result Raised (Option (Sampling F.Real))
  check_sampling null = ok none
  check_sampling j = sampling_object j

  -- What `check_sampling` returns, as a value to send.
  unfoldable pub sampling_value : Option (Sampling F.Real) → Json F.Real
  sampling_value none = null
  sampling_value (some s) = obj (
      field "temperature" (real s.temperature)
        (field "top_p" (real s.top_p) (field "seed" (int s.seed) end)))

  abbrev pub IsSampling : Option (Sampling F.Real) → Type 0
  IsSampling none = Unit
  IsSampling (some s) = in_range s.temperature s.top_p ≡ true

  pub check_sampling-sampling_value :
      (s : Option (Sampling F.Real)) → IsSampling s → check_sampling (sampling_value s) ≡ ok s
  unfolding check_sampling sampling_object sampling_value sampling_of fields_of is_number
      checked_float to_float check_seed
  check_sampling-sampling_value none v = refl
  check_sampling-sampling_value (some s) v = rw v refl

  checked_float-Gives :
      (j : Json F.Real) → Gives IsProtocolError (λ (x : F.Real). Unit {0}) (checked_float j)
  unfolding checked_float
  checked_float-Gives j = ground arith

  check_seed-Gives : (j : Json F.Real) → Gives IsProtocolError (λ (n : ℕ). Unit {0}) (check_seed j)
  unfolding check_seed
  check_seed-Gives j = ground arith

  HasKeys : Fields F.Real → Type 0
  HasKeys fs = All (λ (k : String). has k fs ≡ true) ("temperature" ∷ "top_p" ∷ "seed" ∷ [])

  IsInRange : Sampling F.Real → Type 0
  IsInRange s = in_range s.temperature s.top_p ≡ true

  sampling_of-Gives :
      (fs : Fields F.Real) → HasKeys fs → Gives IsProtocolError IsInRange (sampling_of fs)
  unfolding sampling_of HasKeys IsInRange
  sampling_of-Gives fs h = Gives-item IsInRange "temperature" fs _ h.0 (λ (t : Json F.Real).
      Gives-item IsInRange "top_p" fs _ h.1.0 (λ (p : Json F.Real).
        Gives-item IsInRange "seed" fs _ h.1.1.0 (λ (seed : Json F.Real).
          Gives-guard IsProtocolError IsInRange (is_number t && is_number p) _ _ tt (λ e.
            Gives-any IsProtocolError IsInRange (checked_float t) _ (checked_float-Gives t)
              (λ (x : F.Real).
                Gives-any IsProtocolError IsInRange (checked_float p) _ (checked_float-Gives p)
                  (λ (y : F.Real). Gives-guard IsProtocolError IsInRange (in_range x y) _ _ tt (λ r.
                    Gives-any IsProtocolError IsInRange (check_seed seed) _ (check_seed-Gives seed)
                      (λ (n : ℕ). r))))))))

  sampling_object-Gives : (j : Json F.Real) → Gives IsProtocolError IsSampling (sampling_object j)
  unfolding sampling_object HasKeys IsInRange
  sampling_object-Gives j =
      Gives->>= IsProtocolError HasKeys IsSampling (fields_of j "sampling" _ _) _
        (fields_of-Gives j "sampling" _ _)
        (λ (fs : Fields F.Real) (h : HasKeys fs).
          Gives->>= IsProtocolError IsInRange IsSampling (sampling_of fs) _ (sampling_of-Gives fs h)
            (λ (s : Sampling F.Real) (r : IsInRange s). r))

  -- A sampling that is accepted is in range; else a `ProtocolError` is raised.
  pub check_sampling-Gives : (j : Json F.Real) → Gives IsProtocolError IsSampling (check_sampling j)
  unfolding check_sampling
  check_sampling-Gives null = tt
  check_sampling-Gives (flag b) = sampling_object-Gives (flag b)
  check_sampling-Gives (int n) = sampling_object-Gives (int n)
  check_sampling-Gives (negative n) = sampling_object-Gives (negative n)
  check_sampling-Gives (real x) = sampling_object-Gives (real x)
  check_sampling-Gives (text s) = sampling_object-Gives (text s)
  check_sampling-Gives (arr xs) = sampling_object-Gives (arr xs)
  check_sampling-Gives (obj fs) = sampling_object-Gives (obj fs)
