-- ===== src/Mesh/Assign/Match.antt =====
-- commonnet/mesh/assign.py: `_match`, which gives every window of a tiling a peer of its own.
-- The recursion of `augment` is on fuel; each call has seen one peer more than the call it is made in.
pub mod Sound
pub mod Fuel
use common_network.Prelude.{
  ℕ, zero, suc, List, [], ◌∷◌, Option, none, some, Bool, true, false, ◌||◌, ◌==◌, number_eq,
  pair_eq, if◌then◌else◌, any,
}
use common_network.Prelude.Dict.{Dict, lookup, insert}
use common_network.Mesh.Cover.{Window}

pub record Matching : Type 0 where
  pub owner : Dict ℕ Window
  pub match : Dict Window ℕ

pub record Try : Type 0 where
  pub done : Bool
  pub seen : List ℕ
  pub matching : Matching

abbrev pub is_in : ℕ → List ℕ → Bool
is_in i = any (λ j. j == i)

unfoldable pub take_over : Window → ℕ → Matching → Matching
take_over w i mt = record { owner = insert i w mt.owner; match = insert w i mt.match }

-- `i not in owner or augment(owner[i], seen)`
abbrev pub freed : (Window → List ℕ → Matching → Try) → Option Window → List ℕ → Matching → Try
freed again none seen mt = record { done = true; seen = seen; matching = mt }
freed again (some v) seen mt = again v seen mt

-- The loop of `augment` over the candidates of the window
unfoldable pub try_each :
    (Window → List ℕ → Matching → Try) → Window → List ℕ → List ℕ → Matching → Try
try_each again w [] seen mt = record { done = false; seen = seen; matching = mt }
try_each again w (i ∷ is) seen mt =
    let t = freed again (lookup i mt.owner) (i ∷ seen) mt in
    let skip = try_each again w is seen mt in
    let next = try_each again w is t.seen t.matching in
    if is_in i seen
    then skip
    else if t.done
    then record { done = true; seen = t.seen; matching = take_over w i t.matching }
    else next

module _ (candidates : Window → List ℕ) where
  unfoldable pub augment : ℕ → Window → List ℕ → Matching → Try
  augment zero w seen mt = record { done = false; seen = seen; matching = mt }
  augment (suc fuel) w seen mt = try_each (augment fuel) w (candidates w) seen mt

  abbrev pub is_matched : Window → Matching → Bool
  is_matched w mt = elim (lookup w mt.match) [ none ↦ false | some i ↦ true ]

  -- The loop over the windows of the tiling that have no peer yet
  unfoldable pub match_all : ℕ → List Window → Matching → Option Matching
  match_all fuel [] mt = some mt
  match_all fuel (w ∷ ws) mt =
      let t = augment fuel w [] mt in
      let kept = match_all fuel ws mt in
      let next = match_all fuel ws t.matching in
      if is_matched w mt then kept else if t.done then next else none

-- The seeded pairs, each taken over as it is
unfoldable pub seeded : Matching → Dict Window ℕ → Matching
seeded mt [] = mt
seeded mt ((w, i) ∷ seed) = seeded (take_over w i mt) seed
