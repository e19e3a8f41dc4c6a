-- ===== src/Net/Protocol/Forward/Round.antt =====
-- A forward request through the wire and back.
use common_network.Prelude.{
  ℕ, String, ◌≡◌, refl, sym, true, Option, none, some, List, text_eq, number_eq,
}
use mathlib.Core.Path.{subst}
use common_network.Prelude.Result.{Result, ok, ◌>>=◌}
use common_network.Net.Json.{Raised, obj, Fields}
use common_network.Net.Protocol.{Floats, Base64, fields_of, check_start_pos, is_session_id}
use common_network.Net.Protocol.Tensors.{Tensor, IsTensor, encode_tensor}
use common_network.Net.Protocol.Sampling.{
  Sampling, IsSampling, check_sampling, sampling_value, check_sampling-sampling_value,
}
use common_network.Net.Protocol.Forward.{
  ForwardRequest, is_which, check_cut, has_key, check_output, check_which, which_of, with_input,
  with_output, encode_forward_request_ex, decode_forward_request_ex,
}
use common_network.Net.Protocol.Forward.Reading.{
  check_session_id-ok, is_which-not_empty, decode_from, check_which-ok, decode_ids-ok,
  decode_hidden-ok,
}
use common_network.Net.Protocol.Forward.Ids.{HasLength, check_ids-ok}

-- A tensor or token ids, not both.
abbrev pub IsInput : Option Tensor → Option (List ℕ) → Type 0
IsInput (some t) none = IsTensor t
IsInput none (some ids) = HasLength ids
IsInput _ _ = ⊥

-- Without an output there is no sampling, and `which` has its default.
abbrev pub IsOutput : (F : Floats) → Option String → String → Option (Sampling F.Real) → Type 0
IsOutput F none which (some s) = ⊥
IsOutput F none which none = which ≡ "last"
IsOutput F (some o) which s = (o ≡ "ids") × (is_which which ≡ true) × IsSampling F s

pub record IsForwardRequest (F : Floats) (r : ForwardRequest F.Real) : Type 0 where
  pub named : is_session_id r.session_id ≡ true
  pub input : IsInput r.hidden r.ids
  pub asked : IsOutput F r.output r.which r.sampling

module _ (F : Floats) (b64 : Base64) where
  -- The arguments with which a request is encoded.
  abbrev pub encoded : ForwardRequest F.Real → Result Raised (Fields F.Real)
  encoded r =
      encode_forward_request_ex F b64 r.session_id r.hidden r.start_pos r.truncate_to r.ids r.output
        (some r.which) (elim r.sampling [ none ↦ none | some s ↦ some (sampling_value F (some s)) ])

  -- The request with these fields is what its body says.
  IsRound : ForwardRequest F.Real → Type 0
  IsRound r = (encoded r >>= λ body. decode_forward_request_ex F b64 (obj body)) ≡ ok r

  abbrev requested :
      String
      → ℕ
      → Option Tensor
      → Option (List ℕ)
      → Option ℕ
      → Option String
      → String
      → Option (Sampling F.Real)
      → ForwardRequest F.Real
  requested s pos t ids cut o w smp = record {
    session_id = s;
    start_pos = pos;
    hidden = t;
    ids = ids;
    truncate_to = cut;
    output = o;
    which = w;
    sampling = smp;
  }

  IsRound-ids :
      (s : String) (pos : ℕ) (ids : List ℕ) (cut : Option ℕ)
      → is_session_id s ≡ true
      → HasLength ids
      → IsRound (requested s pos none (some ids) cut none "last" none)
  unfolding IsRound encode_forward_request_ex with_input with_output encode_tensor has_key check_cut
      check_start_pos fields_of check_output sampling_value check_which which_of check_sampling
      is_which
  IsRound-ids s pos ids none h k =
      rw (check_session_id-ok F b64 s h, check_ids-ok F.Real ids k)
        (decode_from F b64 _ _ (decode_ids-ok F b64 _ ids refl refl refl k) h refl refl refl refl
          refl refl)
  IsRound-ids s pos ids (some n) h k =
      rw (check_session_id-ok F b64 s h, check_ids-ok F.Real ids k)
        (decode_from F b64 _ _ (decode_ids-ok F b64 _ ids refl refl refl k) h refl refl refl refl
          refl refl)

  IsRound-ids_output :
      (s : String) (pos : ℕ) (ids : List ℕ) (cut : Option ℕ) (w : String)
      (smp : Option (Sampling F.Real))
      → is_session_id s ≡ true
      → HasLength ids
      → is_which w ≡ true
      → IsSampling F smp
      → IsRound (requested s pos none (some ids) cut (some "ids") w smp)
  unfolding IsRound encode_forward_request_ex with_input with_output encode_tensor has_key check_cut
      check_start_pos fields_of check_output sampling_value
  IsRound-ids_output s pos ids none w none h k e v =
      rw (check_session_id-ok F b64 s h, check_ids-ok F.Real ids k, is_which-not_empty F b64 w e)
        (decode_from F b64 _ _ (decode_ids-ok F b64 _ ids refl refl refl k) h refl refl refl refl
          (check_which-ok F b64 _ w "ids" refl e) (check_sampling-sampling_value F none v))
  IsRound-ids_output s pos ids none w (some smp) h k e v =
      rw
        (
          check_session_id-ok F b64 s h,
          check_ids-ok F.Real ids k,
          check_sampling-sampling_value F (some smp) v,
          is_which-not_empty F b64 w e,
        )
        (decode_from F b64 _ _ (decode_ids-ok F b64 _ ids refl refl refl k) h refl refl refl refl
          (check_which-ok F b64 _ w "ids" refl e) (check_sampling-sampling_value F (some smp) v))
  IsRound-ids_output s pos ids (some n) w none h k e v =
      rw (check_session_id-ok F b64 s h, check_ids-ok F.Real ids k, is_which-not_empty F b64 w e)
        (decode_from F b64 _ _ (decode_ids-ok F b64 _ ids refl refl refl k) h refl refl refl refl
          (check_which-ok F b64 _ w "ids" refl e) (check_sampling-sampling_value F none v))
  IsRound-ids_output s pos ids (some n) w (some smp) h k e v =
      rw
        (
          check_session_id-ok F b64 s h,
          check_ids-ok F.Real ids k,
          check_sampling-sampling_value F (some smp) v,
          is_which-not_empty F b64 w e,
        )
        (decode_from F b64 _ _ (decode_ids-ok F b64 _ ids refl refl refl k) h refl refl refl refl
          (check_which-ok F b64 _ w "ids" refl e) (check_sampling-sampling_value F (some smp) v))

  IsRound-hidden :
      (s : String) (pos : ℕ) (t : Tensor) (cut : Option ℕ)
      → is_session_id s ≡ true
      → IsTensor t
      → IsRound (requested s pos (some t) none cut none "last" none)
  unfolding IsRound encode_forward_request_ex with_input with_output encode_tensor has_key check_cut
      check_start_pos fields_of check_output sampling_value check_which which_of check_sampling
      is_which
  IsRound-hidden s pos t none h k = rw (check_session_id-ok F b64 s h) (
      decode_from F b64 _ _ (decode_hidden-ok F b64 _ t refl refl refl k) h refl refl refl refl refl
        refl)
  IsRound-hidden s pos t (some n) h k = rw (check_session_id-ok F b64 s h) (
      decode_from F b64 _ _ (decode_hidden-ok F b64 _ t refl refl refl k) h refl refl refl refl refl
        refl)

  IsRound-hidden_output :
      (s : String) (pos : ℕ) (t : Tensor) (cut : Option ℕ) (w : String)
      (smp : Option (Sampling F.Real))
      → is_session_id s ≡ true
      → IsTensor t
      → is_which w ≡ true
      → IsSampling F smp
      → IsRound (requested s pos (some t) none cut (some "ids") w smp)
  unfolding IsRound encode_forward_request_ex with_input with_output encode_tensor has_key check_cut
      check_start_pos fields_of check_output sampling_value
  IsRound-hidden_output s pos t none w none h k e v =
      rw (check_session_id-ok F b64 s h, is_which-not_empty F b64 w e)
        (decode_from F b64 _ _ (decode_hidden-ok F b64 _ t refl refl refl k) h refl refl refl refl
          (check_which-ok F b64 _ w "ids" refl e) (check_sampling-sampling_value F none v))
  IsRound-hidden_output s pos t none w (some smp) h k e v =
      rw
        (
          check_session_id-ok F b64 s h,
          check_sampling-sampling_value F (some smp) v,
          is_which-not_empty F b64 w e,
        )
        (decode_from F b64 _ _ (decode_hidden-ok F b64 _ t refl refl refl k) h refl refl refl refl
          (check_which-ok F b64 _ w "ids" refl e) (check_sampling-sampling_value F (some smp) v))
  IsRound-hidden_output s pos t (some n) w none h k e v =
      rw (check_session_id-ok F b64 s h, is_which-not_empty F b64 w e)
        (decode_from F b64 _ _ (decode_hidden-ok F b64 _ t refl refl refl k) h refl refl refl refl
          (check_which-ok F b64 _ w "ids" refl e) (check_sampling-sampling_value F none v))
  IsRound-hidden_output s pos t (some n) w (some smp) h k e v =
      rw
        (
          check_session_id-ok F b64 s h,
          check_sampling-sampling_value F (some smp) v,
          is_which-not_empty F b64 w e,
        )
        (decode_from F b64 _ _ (decode_hidden-ok F b64 _ t refl refl refl k) h refl refl refl refl
          (check_which-ok F b64 _ w "ids" refl e) (check_sampling-sampling_value F (some smp) v))

  IsRound-of :
      (s : String) (pos : ℕ) (t : Option Tensor) (ids : Option (List ℕ)) (cut : Option ℕ)
      (o : Option String) (w : String) (smp : Option (Sampling F.Real))
      → is_session_id s ≡ true
      → IsInput t ids
      → IsOutput F o w smp
      → IsRound (requested s pos t ids cut o w smp)
  IsRound-of s pos none none cut o w smp h k v = absurd k
  IsRound-of s pos (some t) (some ids) cut o w smp h k v = absurd k
  IsRound-of s pos t ids cut none w (some x) h k v = absurd v
  IsRound-of s pos none (some ids) cut none w none h k v =
      subst (λ w'. IsRound (requested s pos none (some ids) cut none w' none)) (sym v)
        (IsRound-ids s pos ids cut h k)
  IsRound-of s pos (some t) none cut none w none h k v =
      subst (λ w'. IsRound (requested s pos (some t) none cut none w' none)) (sym v)
        (IsRound-hidden s pos t cut h k)
  IsRound-of s pos none (some ids) cut (some o) w smp h k v =
      subst (λ o'. IsRound (requested s pos none (some ids) cut (some o') w smp)) (sym v.0)
        (IsRound-ids_output s pos ids cut w smp h k v.1 v.2)
  IsRound-of s pos (some t) none cut (some o) w smp h k v =
      subst (λ o'. IsRound (requested s pos (some t) none cut (some o') w smp)) (sym v.0)
        (IsRound-hidden_output s pos t cut w smp h k v.1 v.2)

  -- A well-formed request (a session id of the pattern; a tensor or token ids, not both; the sampling
  -- and the positions that go with its output) is encoded, and is decoded from its body as it was.
  pub decode_forward_request_ex-encode :
      (r : ForwardRequest F.Real)
      → IsForwardRequest F r
      → (encoded r >>= λ body. decode_forward_request_ex F b64 (obj body)) ≡ ok r
  unfolding IsRound
  decode_forward_request_ex-encode r v =
      IsRound-of r.session_id r.start_pos r.hidden r.ids r.truncate_to r.output r.which r.sampling
        v.named v.input v.asked
