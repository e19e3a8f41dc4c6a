-- ===== src/Net/Chain/Request/Decoded.antt =====
-- The whole of `decode_request`, by the lemmas on its parts.
use common_network.Prelude.{
  String, ◌≡◌, Bool, true, false, Option, none, List, text_eq, number_eq, All,
}
use common_network.Prelude.Result.{Result}
use common_network.Net.Json.{Raised, Json, Fields, has}
use common_network.Net.Protocol.{Floats, Base64}
use common_network.Net.Protocol.Tensors.{Tensor}
use common_network.Net.Protocol.Sampling.{Sampling, IsSampling}
use common_network.Net.Chain.{Python}
use common_network.Net.Chain.Request.{Request}
use common_network.Net.Chain.Request.Sound.{IsRequest}

-- The sampling is in range, and is absent where the step is greedy.
abbrev IsChosen : (F : Floats) → Bool → Option (Sampling F.Real) → Type 0
IsChosen F true s = s ≡ none
IsChosen F false s = IsSampling F s

module _ (F : Floats) (b64 : Base64) (decompress : String → Json F.Real → Result Raised Tensor)
    (py : Python) (allow_private : Bool) where
  abbrev Keys : Fields F.Real → List String → Type 0
  Keys fs keys = All (λ (k : String). has k fs ≡ true) keys

  abbrev Good : Request F.Real → Type 0
  Good r = IsRequest F py allow_private r
