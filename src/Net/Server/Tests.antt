-- ===== src/Net/Server/Tests.antt =====
-- A step that is sent twice to a small server, and the theorem at it.
use common_network.Prelude.{ℕ, ◌≡◌, refl, List, [], ◌∷◌, length, none, some}
use common_network.Speculative.Session
use common_network.Net.Server
use common_network.Net.Server.{Step, Slot, answer, refused}
use common_network.Net.Server.Saved.{forward-again}

-- Each next token is the number of the tokens before it.
abbrev pub count_up : List ℕ → ℕ
count_up = length

abbrev first_step : Step
first_step = record { tokens = 7 ∷ 8 ∷ []; start_pos = 0; truncate_to = none }

abbrev after_first : Slot
after_first = some (record { tokens = 7 ∷ 8 ∷ []; last = some (first_step, 1 ∷ 2 ∷ []) })

first_run :
    Server.forward count_up (Server.open_session none) first_step
    ≡ (after_first, answer (1 ∷ 2 ∷ []))
unfolding Server.forward Server.open_session Session.forward Session.replies
first_run = refl

forward-again_example :
    Server.forward count_up after_first first_step ≡ (after_first, answer (1 ∷ 2 ∷ []))
forward-again_example =
    forward-again count_up (Server.open_session none) after_first first_step (1 ∷ 2 ∷ []) first_run

-- A step that does not go on where the session ends is refused.
gap :
    Server.forward count_up after_first
      (record { tokens = 9 ∷ []; start_pos = 5; truncate_to = none })
    ≡ (after_first, refused Session.wrong_position)
unfolding Server.forward Session.forward
gap = refl
