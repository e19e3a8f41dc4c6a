-- ===== src/Mesh/Assign.antt =====
-- commonnet/mesh/assign.py: the assignment of layers to all the live peers at once.
-- Memory and speeds are natural numbers of one small unit each. The peers are numbered in the order of
-- `_peers`; the texts of the errors are left out.
pub mod Match
pub mod Tilings
pub mod Seeds
pub mod Served
pub mod Plans
mod Tests
use common_network.Prelude.{
  ℕ, zero, suc, ◌+◌, ◌-◌, ◌*◌, ◌/◌, ◌%◌, ◌^◌, String, List, [], ◌∷◌, ◌++◌, map, length, Option,
  none, some, Bool, true, false, ◌&&◌, ◌||◌, not, ◌==◌, number_eq, text_eq, pair_eq, ltb, leb,
  if◌then◌else◌, any, keep_if, count_if,
}
use common_network.Prelude.Dict.{Dict, lookup, insert}
use common_network.Prelude.Sort.{sort_by}
use common_network.Prelude.Text.{text_le}
use common_network.Mesh.Records.{PeerRecord}
use common_network.Mesh.Manifest.{Manifest, window_gib, is_window, stages}
use common_network.Mesh.Placement.{choose_window}
use common_network.Mesh.Cover.{Window, Cover, covered, check_cover}
use common_network.Mesh.Assign.Match.{Matching, is_in, match_all, seeded}

abbrev pub fits : Manifest → PeerRecord → Window → Bool
fits m r w = leb (window_gib m w.0 w.1 r.backend) r.gib

abbrev pub usable : PeerRecord → Bool
usable r = r.state == "up" && not (r.backend == "") && ltb 0 r.gib

-- By the key `(-speed, -gib, peer)`
abbrev pub faster : PeerRecord → PeerRecord → Bool
faster r s =
    ltb s.speed r.speed
    || (s.speed == r.speed && (ltb s.gib r.gib || (s.gib == r.gib && text_le r.peer s.peer)))

unfoldable pub peers_of : List PeerRecord → List PeerRecord
peers_of live = sort_by faster (keep_if usable live)

-- `enumerate(xs)` from a number on
abbrev pub numbered : ℕ → List PeerRecord → Dict ℕ PeerRecord
numbered i [] = []
numbered i (r ∷ rs) = (i, r) ∷ numbered (suc i) rs

-- The inner boundaries whose bit is set in the mask, the first by the lowest bit
unfoldable pub cuts_of : ℕ → List ℕ → List ℕ
cuts_of mask [] = []
cuts_of mask (b ∷ bs) = let rest = cuts_of (mask / 2) bs in if mask % 2 == 1 then b ∷ rest else rest

-- `zip(cuts, cuts[1:])` of the first boundary, the cuts and the last boundary
abbrev pub between : ℕ → List ℕ → ℕ → List Window
between first [] last = (first, last) ∷ []
between first (c ∷ cs) last = (first, c) ∷ between c cs last

-- `boundaries[1:-1]` and `boundaries[-1]` of the boundaries after the first
abbrev pub inner_of : List ℕ → List ℕ
inner_of [] = []
inner_of (b ∷ []) = []
inner_of (b ∷ c ∷ bs) = b ∷ inner_of (c ∷ bs)

abbrev pub end_of : ℕ → List ℕ → ℕ
end_of first [] = first
end_of first (b ∷ bs) = end_of b bs

abbrev pub tiling_of : ℕ → List ℕ → ℕ → List Window
tiling_of first bs mask = between first (cuts_of mask (inner_of bs)) (end_of first bs)

-- The tilings for so many masks, in the order of the masks from a number on
unfoldable pub tilings_from : ℕ → List ℕ → ℕ → ℕ → List (List Window)
tilings_from first bs mask zero = []
tilings_from first bs mask (suc n) = tiling_of first bs mask ∷ tilings_from first bs (suc mask) n

abbrev pub fewer_windows : List Window → List Window → Bool
fewer_windows v w = leb (length v) (length w)

unfoldable pub tilings : List ℕ → List (List Window)
tilings [] = []
tilings (first ∷ bs) = sort_by fewer_windows (tilings_from first bs 0 (2 ^ length (inner_of bs)))

abbrev pub is_at : Option Window → Window → Bool
is_at none w = false
is_at (some v) w = v == w

module _ (m : Manifest) (peers : Dict ℕ PeerRecord) (previous : Dict ℕ Window) where
  -- By the key `(previous.get(i) != window, -speed, peer)`
  abbrev pub sooner : Window → ℕ × PeerRecord → ℕ × PeerRecord → Bool
  sooner w (i, r) (j, s) =
      let stays = is_at (lookup i previous) w in
      let other_stays = is_at (lookup j previous) w in
      (stays && not other_stays)
      || (not (not stays && other_stays)
          && (ltb s.speed r.speed || (s.speed == r.speed && text_le r.peer s.peer)))

  unfoldable pub candidates : Window → List ℕ
  candidates w = map (λ p. p.0) (sort_by (sooner w) (keep_if (λ p. fits m p.1 w) peers))

  abbrev pub some_bare : List Window → Bool
  some_bare tiling = any (λ w. length (candidates w) == 0) tiling

  abbrev pub seed_one : List Window → ℕ → Option Window → Dict Window ℕ → Dict Window ℕ
  seed_one tiling i none seed = seed
  seed_one tiling i (some w) seed =
      if any (λ v. v == w) tiling && is_in i (candidates w) && not (any (λ kv. kv.0 == w) seed)
      then insert w i seed
      else seed

  unfoldable pub seed_all : List Window → Dict ℕ PeerRecord → Dict Window ℕ → Dict Window ℕ
  seed_all tiling [] seed = seed
  seed_all tiling ((i, r) ∷ ps) seed =
      seed_all tiling ps (seed_one tiling i (lookup i previous) seed)

  abbrev pub bare : Matching
  bare = record { owner = []; match = [] }

  unfoldable pub match_tiling : List Window → Option Matching
  match_tiling tiling =
      match_all candidates (suc (length peers)) tiling (seeded bare (seed_all tiling peers []))

  -- `{i: window for window, i in chain.items()}`
  unfoldable pub by_peer : Dict ℕ Window → Dict Window ℕ → Dict ℕ Window
  by_peer acc [] = acc
  by_peer acc ((w, i) ∷ chain) = by_peer (insert i w acc) chain

  -- The records that `choose_window` sees: the peers that have a window, up and on it
  abbrev pub view_one : Window → Option PeerRecord → List PeerRecord → List PeerRecord
  view_one w none rs = rs
  view_one w (some r) rs = record r { window = some w; state = "up" } ∷ rs

  unfoldable pub view : Dict ℕ Window → List PeerRecord
  view [] = []
  view ((j, w) ∷ windows) = view_one w (lookup j peers) (view windows)

  abbrev pub set_if : ℕ → Option Window → Dict ℕ Window → Dict ℕ Window
  set_if i none windows = windows
  set_if i (some w) windows = insert i w windows

  abbrev pub kept_if : PeerRecord → Option Window → Option Window
  kept_if r none = none
  kept_if r (some w) = if fits m r w then some w else none

  abbrev pub chosen_for : PeerRecord → Dict ℕ Window → Option Window → Option Window
  chosen_for r windows (some kept) = some kept
  chosen_for r windows none = choose_window m (view windows) none [] r.gib r.backend

  abbrev pub place_one : ℕ → PeerRecord → Option Window → Dict ℕ Window → Dict ℕ Window
  place_one i r (some w) windows = windows
  place_one i r none windows =
      set_if i (chosen_for r windows (kept_if r (lookup i previous))) windows

  -- The loop that gives every other peer a window
  unfoldable pub place_all : Dict ℕ PeerRecord → Dict ℕ Window → Dict ℕ Window
  place_all [] windows = windows
  place_all ((i, r) ∷ ps) windows = place_all ps (place_one i r (lookup i windows) windows)

  abbrev pub placed : Option Matching → Option (Dict ℕ Window × Dict Window ℕ)
  placed none = none
  placed (some mt) = some (place_all peers (by_peer [] mt.match), mt.match)

  unfoldable pub assign : List Window → Option (Dict ℕ Window × Dict Window ℕ)
  assign tiling = if some_bare tiling then none else placed (match_tiling tiling)
