-- ===== src/Net/Chain/Request/Sound.antt =====
-- What `decode_request` returns is a well-formed request, and it raises a `ProtocolError` only.
use common_network.Prelude.{
  ◌≤◌, ℕ, ◌+◌, ◌<◌, String, ◌≡◌, refl, ◌⊎◌, inl, inr, Bool-cases, Bool, true, ◌&&◌, ◌||◌, not,
  Option, none, some, List, [], ◌∷◌, arith, ◌==◌, text_eq, number_eq, length, Option-cases,
  either_of,
}
use mathlib.Core.Bool.{false≢true}
use common_network.Prelude.Result.{Result, ok, Gives, Gives->>=, Gives-guard, Gives-test}
use common_network.Net.Json.{
  Raised, Json, null, Fields, get, has, has-get, has-of_get, flag, int, negative, real, text, arr,
  obj,
}
use common_network.Net.Protocol.{Floats, Base64, is_session_id}
use common_network.Net.Protocol.Checked.{IsProtocolError}
use common_network.Net.Protocol.Tensors.{Tensor, IsTensor}
use common_network.Net.Protocol.Tensors.Round.{decode_tensor-Gives}
use common_network.Net.Protocol.Sampling.{Sampling, IsSampling, check_sampling}
use common_network.Net.Chain.{Python, is_some}
use common_network.Net.Chain.Hops.{IsRoute}
use common_network.Net.Chain.Origin.{either_text}
use common_network.Net.Chain.Ids.{
  max_chain_tokens, ids, ids_or_none, HasIds, HasDrafts, ids-Gives, ids_or_none-Gives,
}
use common_network.Net.Chain.Request.{
  Request, is_entry, is_bounded, batch, sequence, is_verification, is_tail, fits_cut, is_codec,
  check_codec, check_chain_which, optional_ids, optional_drafts, is_greedy, check_drafts,
  input_length, decode_activation, optional_hidden, after_first, same_ids,
}

-- The input is some ids or a tensor, as the layers and the limits allow.
abbrev pub IsChainInput : ℕ → Option (List ℕ) → Option Tensor → Type 0
IsChainInput start (some ts) none = HasIds ts × (start ≡ 0)
IsChainInput start none (some t) =
    IsTensor t × (batch t.shape ≡ 1) × (sequence t.shape ≤ max_chain_tokens)
IsChainInput start _ _ = ⊥

-- The drafts are the ids after the first, where the input is ids.
abbrev pub IsTail : List ℕ → Option (List ℕ) → Type 0
IsTail drafts none = Unit
IsTail drafts (some ts) = drafts ≡ after_first ts

-- Drafts are one less than the input, and are checked greedily at all positions.
abbrev pub IsDrafted :
    {Real : Type 0}
    → Option (List ℕ)
    → ℕ
    → String
    → Option (Sampling Real)
    → Option (List ℕ)
    → Type 0
IsDrafted none seq which sampling token_ids = Unit
IsDrafted (some drafts) seq which sampling token_ids =
    HasDrafts drafts
    × (length drafts + 1 ≡ seq)
    × (which ≡ "all")
    × (sampling ≡ none)
    × IsTail drafts token_ids

abbrev pub IsCut : Option ℕ → ℕ → Type 0
IsCut none pos = Unit
IsCut (some cut) pos = cut ≡ pos

abbrev pub IsCodec : String → Type 0
IsCodec codec = (codec ≡ "float") ⊎ (codec ≡ "int8_group_v1") ⊎ (codec ≡ "int4_group_v1")

abbrev pub IsWhich : String → Type 0
IsWhich which = (which ≡ "last") ⊎ (which ≡ "all")

pub record IsRequest (F : Floats) (py : Python) (allow_private : Bool) (r : Request F.Real)
    : Type 0 where
  pub named : is_session_id r.id ≡ true
  pub window : r.layers.0 < r.layers.1
  pub linked : IsRoute py allow_private r.layers.1 r.route
  pub input : IsChainInput r.layers.0 r.ids r.hidden
  pub drafted : IsDrafted r.drafts (input_length r.ids r.hidden) r.which r.sampling r.ids
  pub cut : IsCut r.truncate_to r.start_pos
  pub sampled : IsSampling F r.sampling
  pub asked : IsWhich r.which
  pub coded : IsCodec r.activation_codec

same_ids-eq : (xs ys : List ℕ) → same_ids xs ys ≡ true → xs ≡ ys
unfolding same_ids
same_ids-eq [] [] h = refl
same_ids-eq [] (y ∷ ys) h = absurd (false≢true h)
same_ids-eq (x ∷ xs) [] h = absurd (false≢true h)
same_ids-eq (x ∷ xs) (y ∷ ys) h = ground (arith, same_ids-eq xs ys)

-- What an optional value is, where it is there.
abbrev pub HasSome {ℓ} : {A : Type ℓ} → (A → Type 0) → Option A → Type 0
HasSome P none = Unit
HasSome P (some a) = P a

-- What is known of the drafts once they are checked.
abbrev pub IsChecked : Option (List ℕ) → ℕ → String → Bool → Option (List ℕ) → Type 0
IsChecked none seq which greedy token_ids = Unit
IsChecked (some drafts) seq which greedy token_ids =
    (length drafts + 1 ≡ seq) × (which ≡ "all") × (greedy ≡ true) × IsTail drafts token_ids

is_verification-IsChecked :
    (d : List ℕ) (seq : ℕ) (w : String) (greedy : Bool) (ts : Option (List ℕ))
    → is_verification d seq w greedy ≡ true
    → is_tail d ts ≡ true
    → IsChecked (some d) seq w greedy ts
unfolding is_verification is_tail
is_verification-IsChecked d seq w greedy none h k =
    (ground arith, (text_eq.agrees w "all").0 (ground arith), ground arith, tt)
is_verification-IsChecked d seq w greedy (some ts) h k = (
  ground arith,
  (text_eq.agrees w "all").0 (ground arith),
  ground arith,
  same_ids-eq d (after_first ts) k,
)

pub check_drafts-Gives :
    (d : Option (List ℕ)) (seq : ℕ) (w : String) (greedy : Bool) (ts : Option (List ℕ))
    → Gives IsProtocolError
        (λ (u : Unit {0}). IsChecked d seq w greedy ts)
        (check_drafts d seq w greedy ts)
unfolding check_drafts
check_drafts-Gives none seq w greedy ts = tt
check_drafts-Gives (some d) seq w greedy ts =
    Gives-guard IsProtocolError (λ (u : Unit {0}). IsChecked (some d) seq w greedy ts)
      (is_verification d seq w greedy) _ _ tt
      (λ h.
        Gives-test IsProtocolError (λ (u : Unit {0}). IsChecked (some d) seq w greedy ts)
          (is_tail d ts) _ tt (is_verification-IsChecked d seq w greedy ts h))

is_codec-IsCodec : (c : String) → is_codec c ≡ true → IsCodec c
unfolding is_codec
is_codec-IsCodec c h = elim (Bool-cases (c == "float")) [
  | inl e ↦ inl ((text_eq.agrees c "float").0 e)
  | inr e ↦ elim (Bool-cases (c == "int8_group_v1")) [
    | inl e8 ↦ inr (inl ((text_eq.agrees c "int8_group_v1").0 e8))
    | inr e8 ↦ inr (inr ((text_eq.agrees c "int4_group_v1").0 (ground arith)))
  ]
]

module _ {Real : Type 0} where
  pub check_codec-Gives : (j : Option (Json Real)) → Gives IsProtocolError IsCodec (check_codec j)
  unfolding check_codec
  check_codec-Gives none = inl refl
  check_codec-Gives (some (text c)) = elim (Bool-cases (is_codec c)) [
    | inl e ↦ rw (Gives, check_codec, e) (is_codec-IsCodec c e)
    | inr e ↦ rw (Gives, check_codec, e) tt
  ]
  check_codec-Gives (some null) = tt
  check_codec-Gives (some (flag b)) = tt
  check_codec-Gives (some (int n)) = tt
  check_codec-Gives (some (negative n)) = tt
  check_codec-Gives (some (real x)) = tt
  check_codec-Gives (some (arr xs)) = tt
  check_codec-Gives (some (obj fs)) = tt

  pub check_chain_which-Gives :
      (j : Json Real) → Gives IsProtocolError IsWhich (check_chain_which j)
  unfolding check_chain_which
  check_chain_which-Gives (text w) = elim (Bool-cases (w == "last" || w == "all")) [
    | inl e ↦ rw (Gives, check_chain_which, e) (either_text w "last" "all" e)
    | inr e ↦ rw (Gives, check_chain_which, e) tt
  ]
  check_chain_which-Gives null = tt
  check_chain_which-Gives (flag b) = tt
  check_chain_which-Gives (int n) = tt
  check_chain_which-Gives (negative n) = tt
  check_chain_which-Gives (real x) = tt
  check_chain_which-Gives (arr xs) = tt
  check_chain_which-Gives (obj fs) = tt

  pub optional_ids-Gives :
      (j : Option (Json Real))
      → Gives IsProtocolError
          (λ (o : Option (List ℕ)). HasSome HasIds o × (is_some o ≡ is_some j))
          (optional_ids j)
  unfolding optional_ids
  optional_ids-Gives none = (tt, refl)
  optional_ids-Gives (some j) =
      Gives->>= IsProtocolError HasIds _ (ids j) _ (ids-Gives j)
        (λ (xs : List ℕ) (h : HasIds xs). (h, refl))

  pub is_some-get : (key : String) (fs : Fields Real) → is_some (get key fs) ≡ has key fs
  is_some-get key fs = elim (Option-cases (get key fs)) [
    | inl e ↦ rw (e, has-get key fs e) refl
    | inr (v, e) ↦ rw (e, has-of_get key fs v e) refl
  ]

  pub optional_drafts-Gives :
      (j : Option (Json Real)) → Gives IsProtocolError (HasSome HasDrafts) (optional_drafts j)
  unfolding optional_drafts
  optional_drafts-Gives none = tt
  optional_drafts-Gives (some j) =
      Gives->>= IsProtocolError HasDrafts (HasSome HasDrafts) (ids_or_none j) _
        (ids_or_none-Gives j) (λ (xs : List ℕ) (h : HasDrafts xs). h)

module _ {Real : Type 0} (b64 : Base64) (decompress : String → Json Real → Result Raised Tensor)
    (compressed : (codec : String) (j : Json Real)
      → Gives IsProtocolError IsTensor (decompress codec j)) where
  decode_activation-Gives :
      (codec : String) (j : Json Real)
      → Gives IsProtocolError IsTensor (decode_activation b64 decompress codec j)
  unfolding decode_activation
  decode_activation-Gives codec j =
      either_of (Gives IsProtocolError IsTensor)
        (codec == "int4_group_v1" || codec == "int8_group_v1") _ _ (compressed codec j)
        (decode_tensor-Gives b64 j "tensor")

  pub optional_hidden-Gives :
      (codec : String) (j : Option (Json Real))
      → Gives IsProtocolError
          (λ (o : Option Tensor). HasSome IsTensor o × (is_some o ≡ is_some j))
          (optional_hidden b64 decompress codec j)
  unfolding optional_hidden
  optional_hidden-Gives codec none = (tt, refl)
  optional_hidden-Gives codec (some j) =
      Gives->>= IsProtocolError IsTensor _ (decode_activation b64 decompress codec j) _
        (decode_activation-Gives codec j) (λ (t : Tensor) (h : IsTensor t). (h, refl))

pub chain_input :
    (start : ℕ) (ts : Option (List ℕ)) (t : Option Tensor)
    → HasSome HasIds ts
    → HasSome IsTensor t
    → (is_some ts && not (is_some t) || not (is_some ts) && is_some t) ≡ true
    → is_entry start ts ≡ true
    → is_bounded t ≡ true
    → IsChainInput start ts t
unfolding is_entry is_bounded
chain_input start none none h k e f g = absurd (false≢true e)
chain_input start (some ts) none h k e f g = (h, (number_eq.agrees start 0).0 f)
chain_input start none (some t) h k e f g = (k, ground arith, ground arith)
chain_input start (some ts) (some t) h k e f g = absurd (false≢true e)

-- The sampling that goes with the drafts.
pub greedy-none :
    (F : Floats) (j : Option (Json F.Real))
    → is_greedy j ≡ true
    → check_sampling F (elim j [ none ↦ null | some v ↦ v ]) ≡ ok none
unfolding is_greedy check_sampling
greedy-none F none h = refl
greedy-none F (some null) h = refl
greedy-none F (some _) h = absurd (false≢true h)

pub IsCut-fits : (o : Option ℕ) (pos : ℕ) → fits_cut o pos ≡ true → IsCut o pos
unfolding fits_cut
IsCut-fits none pos h = tt
IsCut-fits (some c) pos h = (number_eq.agrees c pos).0 h
