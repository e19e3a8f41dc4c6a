-- ===== src/Mesh/Placement.antt =====
-- commonnet/mesh/placement.py: where a joining peer should serve, and when a peer should move.
-- The ranks of a window are lists of numbers and fractions, compared from the first on.
pub mod Chosen
pub mod Moving
pub mod Route
mod Tests
use common_network.Prelude.{
  ℕ, zero, suc, ◌+◌, ◌-◌, ◌*◌, max, String, List, [], ◌∷◌, ◌++◌, length, Option, none, some, Bool,
  true, false, ◌&&◌, ◌||◌, not, ◌==◌, number_eq, text_eq, pair_eq, ltb, leb, if◌then◌else◌, any,
  all, keep_if, count_if, map,
}
use common_network.Prelude.Dict.{Dict, lookup}
use common_network.Mesh.Records.{PeerRecord}
use common_network.Mesh.Manifest.{Manifest, is_window, stages, windows_fitting, largest}

abbrev pub Window : Type 0
Window = ℕ × ℕ

-- The window of a record that has one
abbrev pub window_or : Option Window → Window
window_or none = (0, 0)
window_or (some w) = w

abbrev pub window_of : PeerRecord → Window
window_of r = window_or r.window

abbrev pub on_stages : Manifest → Option Window → Bool
on_stages m none = false
on_stages m (some w) = is_window m w.0 w.1

abbrev pub serves : Manifest → PeerRecord → Bool
serves m r = r.state == "up" && on_stages m r.window

unfoldable pub serving : Manifest → List PeerRecord → List PeerRecord
serving m live = keep_if (serves m) live

-- The stage lies in the window.
abbrev pub covers : Window → Window → Bool
covers w s = leb w.0 s.0 && leb s.1 w.1

-- How many live peers serve one stage, and for each stage.
unfoldable pub coverage_of : Manifest → List PeerRecord → Window → ℕ
unfolding serving
coverage_of m live s = count_if (λ r. covers (window_of r) s) (serving m live)

unfoldable pub coverage : Manifest → List PeerRecord → List ℕ
coverage m live = map (coverage_of m live) (stages m)

-- Live peers on exactly one window.
unfoldable pub replicas_of : Manifest → List PeerRecord → Window → ℕ
unfolding serving
replicas_of m live w = count_if (λ r. window_of r == w) (serving m live)

-- A number that is better when it is smaller, and a fraction that is better when it is larger.
pub data Rank : Type 0 where
  least : ℕ → Rank
  most : ℕ → ℕ → Rank

abbrev pub rank_lt : Rank → Rank → Bool
rank_lt (least a) (least b) = ltb a b
rank_lt (most n d) (most n' d') = ltb (n' * d) (n * d')
rank_lt (least a) (most n d) = false
rank_lt (most n d) (least a) = false

-- The order of Python's tuples
unfoldable pub key_lt : List Rank → List Rank → Bool
key_lt [] ks = false
key_lt (j ∷ js) [] = false
key_lt (j ∷ js) (k ∷ ks) = if rank_lt j k then true else if rank_lt k j then false else key_lt js ks

-- `min(xs, key=...)`: the first of the least
unfoldable pub min_from : (Window → List Rank) → Window → List Window → Window
min_from key best [] = best
min_from key best (w ∷ ws) = min_from key (if key_lt (key w) (key best) then w else best) ws

abbrev pub flag : Bool → Rank
flag b = if b then least 0 else least 1

abbrev pub add : ℕ → List ℕ → List ℕ
add x xs = if any (λ y. y == x) xs then xs else x ∷ xs

-- One serving peer extends what is reached from the start and what reaches the end.
unfoldable pub extend : List ℕ × List ℕ → PeerRecord → List ℕ × List ℕ
extend (starts, ends) r =
    let w = window_of r in
    let starts' = if any (λ y. y == w.0) starts then add w.1 starts else starts in
    (starts', if any (λ y. y == w.1) ends then add w.0 ends else ends)

unfoldable pub extend_all : List ℕ × List ℕ → List PeerRecord → List ℕ × List ℕ
extend_all reach [] = reach
extend_all reach (r ∷ rs) = extend_all (extend reach r) rs

unfoldable pub extend_rounds : ℕ → List ℕ × List ℕ → List PeerRecord → List ℕ × List ℕ
extend_rounds zero reach rs = reach
extend_rounds (suc n) reach rs = extend_rounds n (extend_all reach rs) rs

-- `sum(Fraction(1, 1 + cov[s]))` over the stages of a window, as numerator and denominator
unfoldable pub score_of : (Window → ℕ) → List Window → ℕ × ℕ
score_of cov [] = (0, 1)
score_of cov (s ∷ ss) = let (n, d) = score_of cov ss in (n * (1 + cov s) + d, d * (1 + cov s))

abbrev pub or_zero : Option ℕ → ℕ
or_zero none = 0
or_zero (some n) = n

module _ (m : Manifest) (live : List PeerRecord) (me : Option String) (cached : Dict Window ℕ) where
  abbrev pub not_me : Option String → PeerRecord → Bool
  not_me none r = true
  not_me (some peer) r = not (r.peer == peer)

  abbrev pub others : List PeerRecord
  others = keep_if (not_me me) live

  abbrev pub is_planned : Option ℕ → Bool
  is_planned none = false
  is_planned (some n) = not (n == 0)

  abbrev pub planned : Bool
  planned = is_planned m.max_window_layers

  -- The boundaries that chains of planned peers reach from the start, and that reach the end.
  unfoldable pub reach : List ℕ × List ℕ
  unfolding serving
  reach =
      let peers = if planned then serving m others else [] in
      extend_rounds (length peers) (0 ∷ [], m.num_layers ∷ []) peers

  abbrev pub complete : Bool
  complete = any (λ x. x == m.num_layers) (reach).0

  abbrev pub uncovered : List Window
  uncovered = keep_if (λ s. coverage_of m others s == 0) (stages m)

  abbrev pub fills_gap : Window → Bool
  fills_gap w = any (covers w) uncovered || length uncovered == 0

  unfoldable pub chain_rank : Window → List Rank
  chain_rank w =
      if not planned || complete
      then []
      else let starts = (reach).0 in
        let ends = (reach).1 in
        let from_start = any (λ x. x == w.0) starts in
        let extends = from_start && ltb (largest starts) w.1 in
        flag (fills_gap w)
        ∷ flag (from_start && any (λ x. x == w.1) ends)
        ∷ flag extends
        ∷ most (if extends then w.1 else 0) 1
        ∷ []

  abbrev pub use_cache : Bool
  use_cache = any (λ kv. ltb 0 kv.1) cached

  -- The replicas that a planned network has, where it is complete.
  unfoldable pub repeatable : List Window → List Window
  repeatable candidates =
      if planned && complete then keep_if (λ w. ltb 0 (replicas_of m others w)) candidates else []

  unfoldable pub key : Bool → Window → List Rank
  key repeats w =
      let (n, d) = score_of (coverage_of m others) (keep_if (covers w) (stages m)) in
      let existing = replicas_of m others w in
      let rest =
        most n d ∷ most (w.1 - w.0) 1 ∷ flag (ltb 0 existing) ∷ least existing ∷ least w.0 ∷ [] in
      let front = chain_rank w ++ (if repeats then least existing ∷ [] else []) in
      front
      ++ (if use_cache
          then flag (fills_gap w) ∷ most (or_zero (lookup w cached)) 1 ∷ rest
          else rest)

  abbrev pub best_of : Bool → List Window → Option Window
  best_of repeats [] = none
  best_of repeats (w ∷ ws) = some (min_from (key repeats) w ws)

  abbrev pub or_else : List Window → List Window → Option Window
  or_else [] candidates = best_of false candidates
  or_else (w ∷ ws) candidates = best_of true (w ∷ ws)

  -- `none` is `NoWindow`.
  unfoldable pub choose_window : ℕ → String → Option Window
  choose_window gib backend =
      let candidates = windows_fitting m gib backend in or_else (repeatable candidates) candidates

unfoldable pub first_where : (PeerRecord → Bool) → List PeerRecord → Option PeerRecord
first_where p [] = none
first_where p (r ∷ rs) = if p r then some r else first_where p rs

abbrev pub or_given {ℓ} : {A : Type ℓ} → A → Option A → A
or_given a none = a
or_given a (some b) = b

-- The new window is taken where it is another and fills a gap.
abbrev pub move_to : List Window → Window → Option Window → Option Window
move_to gaps w none = none
move_to gaps w (some new) = if new == w || not (any (covers new) gaps) then none else some new

module _ (m : Manifest) (live : List PeerRecord) (me : String) (gib : Option ℕ)
    (backend : Option String) where
  unfoldable pub move_from : PeerRecord → Window → Option Window
  move_from mine w =
      let gaps = keep_if (λ s. coverage_of m live s == 0) (stages m) in
      if length gaps == 0
      then none
      else if any (λ s. covers w s && ltb (coverage_of m live s) 2) (stages m)
      then none
      else move_to gaps w (
          choose_window m live (some me) [] (or_given mine.gib gib) (or_given mine.backend backend))

  abbrev pub move_of : PeerRecord → Option Window → Option Window
  move_of mine none = none
  move_of mine (some w) = move_from mine w

  abbrev pub move_given : Option PeerRecord → Option Window
  move_given none = none
  move_given (some mine) = move_of mine mine.window

  unfoldable pub should_move : Option Window
  should_move = move_given (first_where (λ r. r.peer == me && r.state == "up") live)
