-- ===== src/Net/Chain/Request.antt =====
-- commonnet/net/chain.py: `decode_request`. The two compressed codecs are a parameter.
pub mod Sound
pub mod Decoded
use common_network.Prelude.{
  ℕ, zero, suc, ◌+◌, ◌-◌, ◌*◌, ◌/◌, ◌%◌, ◌^◌, ◌≤◌, ◌<◌, min, max, String, ◌≡◌, refl, sym, ap, ◌∙◌,
  ◌≢◌, ◌↔◌, ◌⊎◌, inl, inr, Bool, true, false, ◌&&◌, ◌||◌, not, Option, none, some, List, [], ◌∷◌,
  ◌++◌, map, reverse, arith, ltb, leb, same_number, if◌then◌else◌, ◌==◌, text_eq, number_eq, length,
  take, drop, keep_if, count_if, any, all, All, ltb→lt, ltb→ge, leb→le, leb→gt, Bool-cases,
  Option-cases, either_of, by_test, length-append, length-map, map-append,
}
use common_network.Prelude.Result.{Result, ok, err, ◌>>=◌, ◌>>◌, guard}
use common_network.Net.Json.{
  Raised, protocol_error, Json, null, text, arr, obj, Items, nil, cons, items_length, Fields, item,
  get, has,
}
use common_network.Net.Protocol.{
  Floats, Base64, refused, fields_of, check_layers, check_session_id, check_start_pos,
}
use common_network.Net.Protocol.Tensors.{Tensor, decode_tensor}
use common_network.Net.Protocol.Sampling.{Sampling, check_sampling}
use common_network.Net.Protocol.Forward.{check_cut, is_none}
use common_network.Net.Chain.{Python, Hop, max_hops, is_some, check_hop}
use common_network.Net.Chain.Ids.{ids, ids_or_none, max_chain_tokens}

pub record Request (Real : Type 0) : Type 0 where
  pub id : String
  pub start_pos : ℕ
  pub layers : ℕ × ℕ
  pub route : List Hop
  pub which : String
  pub ids : Option (List ℕ)
  pub hidden : Option Tensor
  pub sampling : Option (Sampling Real)
  pub drafts : Option (List ℕ)
  pub truncate_to : Option ℕ
  pub activation_codec : String

abbrev pub request_keys : List String
request_keys = "id" ∷ "start_pos" ∷ "layers" ∷ "route" ∷ "which" ∷ []

abbrev pub more_keys : List String
more_keys = "ids" ∷ "hidden" ∷ "sampling" ∷ "drafts" ∷ "truncate_to" ∷ "activation_codec" ∷ []

-- Each hop goes on where the one before ends, and to a peer that is not yet in the route.
unfoldable pub is_linked : ℕ → List String → List Hop → Bool
is_linked previous seen [] = true
is_linked previous seen (hop ∷ hops) =
    not (not (hop.layers.0 == previous) || any (λ (url : String). url == hop.url) seen)
    && is_linked hop.layers.1 (hop.url ∷ seen) hops

-- `shape[0]` and `shape[1]`
abbrev pub batch : List ℕ → ℕ
batch [] = 0
batch (n ∷ ns) = n

abbrev pub sequence : List ℕ → ℕ
sequence [] = 0
sequence (n ∷ ns) = batch ns

unfoldable pub is_codec : String → Bool
is_codec codec = codec == "float" || (codec == "int8_group_v1" || codec == "int4_group_v1")

-- `token_ids[1:]`
abbrev pub after_first : List ℕ → List ℕ
after_first [] = []
after_first (t ∷ ts) = ts

unfoldable pub same_ids : List ℕ → List ℕ → Bool
same_ids [] [] = true
same_ids (x ∷ xs) (y ∷ ys) = x == y && same_ids xs ys
same_ids _ _ = false

module _ {Real : Type 0} where
  unfoldable pub check_codec : Option (Json Real) → Result Raised String
  check_codec none = ok "float"
  check_codec (some (text codec)) =
      if is_codec codec then ok codec else refused "unsupported chain activation codec"
  check_codec (some _) = refused "unsupported chain activation codec"

  unfoldable pub check_chain_which : Json Real → Result Raised String
  check_chain_which (text w) =
      if w == "last" || w == "all" then ok w else refused "chain which must be last or all"
  check_chain_which _ = refused "chain which must be last or all"

  -- `ids(obj["ids"]) if "ids" in obj else None`, and the same of the drafts
  unfoldable pub optional_ids : Option (Json Real) → Result Raised (Option (List ℕ))
  optional_ids none = ok none
  optional_ids (some j) = do xs ← ids j; ok (some xs)

  unfoldable pub optional_drafts : Option (Json Real) → Result Raised (Option (List ℕ))
  optional_drafts none = ok none
  optional_drafts (some j) = do xs ← ids_or_none j; ok (some xs)

  -- `obj.get("sampling") is None`
  unfoldable pub is_greedy : Option (Json Real) → Bool
  is_greedy none = true
  is_greedy (some null) = true
  is_greedy (some _) = false

  -- The hops of the route, each checked.
  unfoldable pub check_hops : Python → Bool → Items Real → Result Raised (List Hop)
  check_hops py allow_private nil = ok []
  check_hops py allow_private (cons x xs) = do
    hop ← check_hop py allow_private x
    hops ← check_hops py allow_private xs
    ok (hop ∷ hops)

  unfoldable pub check_route : Python → Bool → ℕ → Json Real → Result Raised (List Hop)
  check_route py allow_private end_layer (arr xs) = do
    guard (ltb (items_length xs) max_hops) (protocol_error "chain route exceeds the hop limit")
    hops ← check_hops py allow_private xs
    guard (is_linked end_layer [] hops)
        (protocol_error "chain route must advance through contiguous, distinct peers")
    ok hops
  check_route py allow_private end_layer _ = refused "chain route exceeds the hop limit"

-- Drafts are for a greedy step that asks for all positions, one less than its input.
unfoldable pub is_verification : List ℕ → ℕ → String → Bool → Bool
is_verification drafts seq which greedy = length drafts + 1 == seq && (which == "all" && greedy)

-- They are the ids after the first, where the input is ids.
unfoldable pub is_tail : List ℕ → Option (List ℕ) → Bool
is_tail drafts none = true
is_tail drafts (some ts) = same_ids drafts (after_first ts)

unfoldable pub check_drafts :
    Option (List ℕ) → ℕ → String → Bool → Option (List ℕ) → Result Raised (Unit {0})
check_drafts none seq which greedy token_ids = ok tt
check_drafts (some drafts) seq which greedy token_ids = do
  guard (is_verification drafts seq which greedy)
      (protocol_error "verification needs greedy output and one more input than drafts")
  guard (is_tail drafts token_ids)
      (protocol_error "drafts must match the input after its first token")

-- A rollback is to the start of the step.
unfoldable pub fits_cut : Option ℕ → ℕ → Bool
fits_cut none pos = true
fits_cut (some cut) pos = cut == pos

-- `len(token_ids)` or `hidden.shape[1]`
unfoldable pub input_length : Option (List ℕ) → Option Tensor → ℕ
input_length (some ts) hidden = length ts
input_length none (some t) = sequence t.shape
input_length none none = 0

-- Token ids enter the first layers only.
unfoldable pub is_entry : ℕ → Option (List ℕ) → Bool
is_entry start none = true
is_entry start (some ts) = start == 0

-- A tensor has one batch of a bounded length.
unfoldable pub is_bounded : Option Tensor → Bool
is_bounded none = true
is_bounded (some t) = batch t.shape == 1 && leb (sequence t.shape) max_chain_tokens

module _ {Real : Type 0} (b64 : Base64)
    (decompress : String → Json Real → Result Raised Tensor) where
  -- `decode_activation`, of a tensor as it is or compressed
  unfoldable pub decode_activation : String → Json Real → Result Raised Tensor
  decode_activation codec j =
      if codec == "int4_group_v1" || codec == "int8_group_v1"
      then decompress codec j
      else decode_tensor b64 j "tensor"

  unfoldable pub optional_hidden : String → Option (Json Real) → Result Raised (Option Tensor)
  optional_hidden codec none = ok none
  optional_hidden codec (some j) = do t ← decode_activation codec j; ok (some t)

module _ (F : Floats) (b64 : Base64) (decompress : String → Json F.Real → Result Raised Tensor)
    (py : Python) where
  -- What follows the input: the outputs asked for, the drafts, the positions and the sampling.
  unfoldable pub decode_step :
      Fields F.Real
      → ℕ × ℕ
      → List Hop
      → String
      → Option (List ℕ)
      → Option Tensor
      → Result Raised (Request F.Real)
  decode_step fs layers hops codec token_ids hidden = do
    which ← check_chain_which (← item "which" fs)
    drafts ← optional_drafts (get "drafts" fs)
    check_drafts drafts (input_length token_ids hidden) which (is_greedy (get "sampling" fs))
        token_ids
    cut ← check_cut (get "truncate_to" fs)
    pos ← check_start_pos (← item "start_pos" fs)
    guard (fits_cut cut pos)
        (protocol_error "chain rollback must cut to this step's start position")
    id ← check_session_id (← item "id" fs)
    sampling ← check_sampling F (elim (get "sampling" fs) [ none ↦ null | some v ↦ v ])
    ok (record {
      id = id;
      start_pos = pos;
      layers = layers;
      route = hops;
      which = which;
      ids = token_ids;
      hidden = hidden;
      sampling = sampling;
      drafts = drafts;
      truncate_to = cut;
      activation_codec = codec;
    })

  unfoldable pub decode_request : Bool → Json F.Real → Result Raised (Request F.Real)
  decode_request allow_private j = do
    fs ← fields_of j "chain request" request_keys more_keys
    guard (has "ids" fs && not (has "hidden" fs) || not (has "ids" fs) && has "hidden" fs)
        (protocol_error "chain request needs exactly one of IDs or hidden states")
    layers ← check_layers (← item "layers" fs)
    hops ← check_route py allow_private layers.1 (← item "route" fs)
    codec ← check_codec (get "activation_codec" fs)
    token_ids ← optional_ids (get "ids" fs)
    hidden ← optional_hidden b64 decompress codec (get "hidden" fs)
    guard (is_entry layers.0 token_ids)
        (protocol_error "token IDs enter only the first layer window")
    guard (is_bounded hidden) (protocol_error "chain input needs batch one and a bounded sequence")
    decode_step fs layers hops codec token_ids hidden
