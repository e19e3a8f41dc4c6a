-- ===== src/Net/Protocol/Forward/Sound.antt =====
-- What the decoder of a forward request returns is well formed, and it raises a `ProtocolError` only.
use common_network.Prelude.{ℕ, String, ◌≡◌, true, Option, none, some, List, [], ◌∷◌, number_eq, All}
use common_network.Prelude.Result.{Gives, Gives-any}
use common_network.Net.Json.{Json, Fields, has, get}
use common_network.Net.Protocol.{Floats, Base64, check_start_pos}
use common_network.Net.Protocol.Tensors.{Tensor}
use common_network.Net.Protocol.Sampling.{Sampling}
use common_network.Net.Protocol.Forward.{is_which, check_cut}
use common_network.Net.Protocol.Forward.Round.{IsInput}
use common_network.Net.Protocol.Checked.{IsProtocolError, check_start_pos-Gives}

-- The keys are in the dictionary.
abbrev HasKeys : {Real : Type 0} → List String → Fields Real → Type 0
HasKeys keys fs = All (λ (k : String). has k fs ≡ true) keys

abbrev IsAsked : Option String → Type 0
IsAsked none = Unit
IsAsked (some o) = o ≡ "ids"

-- The value of `which` that goes with an output; without one there is no sampling.
abbrev IsWhich : {Real : Type 0} → Fields Real → Option String → String → Type 0
IsWhich fs none w = (w ≡ "last") × (get "sampling" fs ≡ none)
IsWhich fs (some o) w = is_which w ≡ true

module _ {Real : Type 0} where
  pub check_cut-Gives :
      (j : Option (Json Real)) → Gives IsProtocolError (λ (o : Option ℕ). Unit {0}) (check_cut j)
  unfolding check_cut
  check_cut-Gives none = tt
  check_cut-Gives (some j) =
      Gives-any IsProtocolError _ (check_start_pos j) _ (check_start_pos-Gives j) (λ (n : ℕ). tt)

module _ (F : Floats) (b64 : Base64) where
  IsGot : Fields F.Real × Option Tensor × Option (List ℕ) → Type 0
  IsGot got = IsInput got.1 got.2 × HasKeys ("id" ∷ "start_pos" ∷ []) got.0
