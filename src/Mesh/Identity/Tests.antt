-- ===== src/Mesh/Identity/Tests.antt =====
-- An identity whose clock goes back, and the theorem there.
use common_network.Prelude.{ℕ, ◌≡◌, refl, List, [], ◌∷◌, Option, none, some}
use common_network.Mesh.Identity as Identity

abbrev new_identity : Identity.Identity
new_identity = record { last_seq = 0 }

abbrev asked : List (Option ℕ × ℕ)
asked = (none, 5000) ∷ (none, 4000) ∷ (some 9000, 4500) ∷ []

clock_goes_back : (Identity.sign_all new_identity asked).1 ≡ 5000 ∷ 5001 ∷ 9000 ∷ []
unfolding Identity.sign_all Identity.next_seq
clock_goes_back = refl

-- A number that the caller gives is taken as it is, also where it is below the last one.
given_below_last :
    (Identity.sign_all new_identity ((none, 5000) ∷ (some 7, 5001) ∷ [])).1 ≡ 5000 ∷ 7 ∷ []
unfolding Identity.sign_all Identity.next_seq
given_below_last = refl
