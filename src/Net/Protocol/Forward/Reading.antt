-- ===== src/Net/Protocol/Forward/Reading.antt =====
-- What the decoder reads from a body, by the entries of the body.
use common_network.Prelude.{
  ℕ, String, ◌≡◌, refl, inl, inr, Bool, true, false, ◌&&◌, ◌||◌, none, some, List, ◌==◌, text_eq,
  number_eq, Bool-cases,
}
use mathlib.Core.Bool.{false≢true}
use mathlib.Core.Path.{subst}
use common_network.Prelude.Result.{ok}
use common_network.Net.Json.{null, int, text, arr, obj, Fields, int_items, item, has, get, picked}
use common_network.Net.Protocol.{
  Floats, Base64, fields_of, check_session_id, check_start_pos, is_session_id,
}
use common_network.Net.Protocol.Tensors.{Tensor, IsTensor, encode_tensor}
use common_network.Net.Protocol.Tensors.Round.{decode_tensor-encode_tensor}
use common_network.Net.Protocol.Sampling.{check_sampling}
use common_network.Net.Protocol.Forward.{
  ForwardRequest, is_which, check_cut, has_key, check_output, check_which, which_of, picked_tensor,
  decode_ids, decode_hidden, decode_input, decode_rest, decode_forward_request_ex, ids_keys,
  step_keys, output_keys, tensor_keys,
}
use common_network.Net.Protocol.Forward.Ids.{HasLength, check_ids-ok}

module _ (F : Floats) (b64 : Base64) where
  pub check_session_id-ok :
      (s : String) → is_session_id s ≡ true → check_session_id {Real = F.Real} (text s) ≡ ok s
  unfolding check_session_id
  check_session_id-ok s h = rw h refl

  pub is_which-not_empty : (w : String) → is_which w ≡ true → (w == "") ≡ false
  unfolding is_which
  is_which-not_empty w h = elim (Bool-cases (w == "")) [
    | inl e ↦ absurd (false≢true (subst (λ v. is_which v ≡ true) ((text_eq.agrees w "").0 e) h))
    | inr e ↦ e
  ]

  -- Reading the rest of a body gives what its entries say.
  pub decode_from :
      (fs : Fields F.Real) (r : ForwardRequest F.Real)
      → decode_input F b64 (obj fs) ≡ ok (fs, r.hidden, r.ids)
      → is_session_id r.session_id ≡ true
      → item "id" fs ≡ ok (text r.session_id)
      → item "start_pos" fs ≡ ok (int r.start_pos)
      → check_cut (get "truncate_to" fs) ≡ ok r.truncate_to
      → check_output (get "output" fs) ≡ ok r.output
      → check_which fs r.output ≡ ok r.which
      → check_sampling F (elim (get "sampling" fs) [ none ↦ null | some v ↦ v ]) ≡ ok r.sampling
      → decode_forward_request_ex F b64 (obj fs) ≡ ok r
  unfolding decode_forward_request_ex decode_rest check_start_pos
  decode_from fs r i h e1 e2 e3 e4 e5 e6 =
      rw (i, e4, e5, e1, check_session_id-ok r.session_id h, e2, e3, e6) refl

  and_false : (b : Bool) → (b && false) ≡ false
  and_false true = refl
  and_false false = refl

  pub decode_ids-ok :
      (fs : Fields F.Real) (ids : List ℕ)
      → has "ids" fs ≡ true
      → fields_of (obj fs) "forward request" ids_keys output_keys ≡ ok fs
      → item "ids" fs ≡ ok (arr (int_items ids))
      → HasLength ids
      → decode_input F b64 (obj fs) ≡ ok (fs, none, some ids)
  unfolding decode_input decode_ids has_key
  decode_ids-ok fs ids e1 e2 e3 k = rw (e1, e2, e3, check_ids-ok F.Real ids k) refl

  pub check_which-ok :
      (fs : Fields F.Real) (w o : String)
      → get "which" fs ≡ some (text w)
      → is_which w ≡ true
      → check_which fs (some o) ≡ ok w
  unfolding check_which which_of
  check_which-ok fs w o e h =
      rw (check_which, e, which_of, h, and_false (has "which" fs || has "sampling" fs)) refl

  pub decode_hidden-ok :
      (fs : Fields F.Real) (t : Tensor)
      → has "ids" fs ≡ false
      → fields_of (obj fs) "forward request" step_keys output_keys ≡ ok fs
      → picked tensor_keys fs ≡ ok (encode_tensor b64 t)
      → IsTensor t
      → decode_input F b64 (obj fs) ≡ ok (fs, some t, none)
  unfolding decode_input decode_hidden picked_tensor has_key
  decode_hidden-ok fs t e1 e2 e3 k =
      rw (e1, e2, e3, decode_tensor-encode_tensor F.Real b64 t "forward request" k) refl
