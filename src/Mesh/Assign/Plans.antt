-- ===== src/Mesh/Assign/Plans.antt =====
-- commonnet/mesh/assign.py: `plan`, the best of the assignments that the tilings give, and `changes`.
pub mod Covers
use common_network.Prelude.{
  ℕ, ◌+◌, String, List, [], ◌∷◌, map, length, Option, none, some, Bool, true, false, ◌&&◌, ◌||◌,
  not, ◌==◌, number_eq, text_eq, pair_eq, ltb, leb, if◌then◌else◌, keep_if, count_if, any, drop,
}
use common_network.Prelude.Dict.{Dict, lookup, insert}
use common_network.Prelude.Sort.{sort_by}
use common_network.Prelude.Text.{text_le}
use common_network.Mesh.Records.{PeerRecord}
use common_network.Mesh.Manifest.{Manifest, is_window, stages}
use common_network.Mesh.Cover.{Window, Cover, covered, check_cover, before}
use common_network.Mesh.Assign.{fits, is_at, assign, tilings, numbered, peers_of}

abbrev pub max_stages : ℕ
max_stages = 16

pub record Plan : Type 0 where
  pub chain : List Window
  pub windows : Dict String Window
  pub idle : List String

-- Why no peers cover the model: there are none, nobody can hold these layers, or no chain goes on from here.
pub data Refusal : Type 0 where
  no_peers : Refusal
  nobody_holds : List Window → Refusal
  no_chain_after : ℕ → Refusal

-- `AssignmentError`, for too many stages, where no peers cover the model, and of the check at the end
pub data Assignment : Type 0 where
  planned : Plan → Assignment
  too_many_stages : ℕ → Assignment
  uncovered : Refusal → Assignment
  bad_cover : Cover → Assignment

-- `(moved, len(tiling), -chain_speed, tiling)`
pub record Key : Type 0 where
  pub moved : ℕ
  pub hops : ℕ
  pub speed : ℕ
  pub tiling : List Window

abbrev pub window_lt : Window → Window → Bool
window_lt (a, b) (c, d) = ltb a c || (a == c && ltb b d)

unfoldable pub tiling_lt : List Window → List Window → Bool
tiling_lt vs [] = false
tiling_lt [] (w ∷ ws) = true
tiling_lt (v ∷ vs) (w ∷ ws) =
    let rest = tiling_lt vs ws in
    if window_lt v w then true else if window_lt w v then false else rest

abbrev pub key_lt : Key → Key → Bool
key_lt j k =
    ltb j.moved k.moved
    || (j.moved == k.moved
        && (ltb j.hops k.hops
            || (j.hops == k.hops
                && (ltb k.speed j.speed || (j.speed == k.speed && tiling_lt j.tiling k.tiling)))))

pub record Choice : Type 0 where
  pub key : Key
  pub tiling : List Window
  pub windows : Dict ℕ Window

abbrev pub speed_at : Option PeerRecord → ℕ
speed_at none = 0
speed_at (some r) = r.speed

unfoldable pub chain_speed : Dict ℕ PeerRecord → Dict Window ℕ → ℕ
chain_speed peers [] = 0
chain_speed peers ((w, i) ∷ chain) = speed_at (lookup i peers) + chain_speed peers chain

module _ (m : Manifest) (peers : Dict ℕ PeerRecord) (previous : Dict ℕ Window) where
  unfoldable pub moves : Dict ℕ Window → ℕ
  moves windows = count_if (λ kv. not (is_at (lookup kv.0 windows) kv.1)) previous

  abbrev pub better_of : Option Choice → Choice → Option Choice
  better_of none c = some c
  better_of (some best) c = if key_lt c.key best.key then some c else some best

  abbrev pub consider :
      Option Choice → List Window → Option (Dict ℕ Window × Dict Window ℕ) → Option Choice
  consider best tiling none = best
  consider best tiling (some (windows, chain)) = better_of best (record {
    key = record {
      moved = moves windows;
      hops = length tiling;
      speed = chain_speed peers chain;
      tiling = tiling;
    };
    tiling = tiling;
    windows = windows;
  })

  unfoldable pub best_from : Option Choice → List (List Window) → Option Choice
  best_from best [] = best
  best_from best (tiling ∷ ts) =
      best_from (consider best tiling (assign m peers previous tiling)) ts

-- `{p["peer"]: i for i, p in enumerate(peers)}`
unfoldable pub index_of : Dict String ℕ → Dict ℕ PeerRecord → Dict String ℕ
index_of acc [] = acc
index_of acc ((i, r) ∷ ps) = index_of (insert r.peer i acc) ps

abbrev pub own_windows : List PeerRecord → Dict String (Option Window)
own_windows peers = map (λ r. (r.peer, r.window)) peers

abbrev pub serves_now : Manifest → Option ℕ → Option Window → Dict ℕ Window → Dict ℕ Window
serves_now m none w prev = prev
serves_now m (some i) none prev = prev
serves_now m (some i) (some w) prev = if is_window m w.0 w.1 then insert i w prev else prev

unfoldable pub previous_of :
    Manifest → Dict String ℕ → Dict ℕ Window → Dict String (Option Window) → Dict ℕ Window
previous_of m index prev [] = prev
previous_of m index prev ((peer, w) ∷ current) =
    previous_of m index (serves_now m (lookup peer index) w prev) current

-- `{peers[i]["peer"]: window for i, window in windows.items()}`
abbrev pub name_one : Option PeerRecord → Window → Dict String Window → Dict String Window
name_one none w acc = acc
name_one (some r) w acc = insert r.peer w acc

unfoldable pub named : Dict ℕ PeerRecord → Dict String Window → Dict ℕ Window → Dict String Window
named peers acc [] = acc
named peers acc ((i, w) ∷ windows) = named peers (name_one (lookup i peers) w acc) windows

abbrev pub is_set : Option Window → Bool
is_set none = false
is_set (some w) = true

unfoldable pub plan_of : Dict ℕ PeerRecord → Choice → Plan
plan_of peers c = record {
  chain = c.tiling;
  windows = named peers [] c.windows;
  idle =
      sort_by text_le
        (map (λ p. p.1.peer) (keep_if (λ p. not (is_set (lookup p.0 c.windows))) peers));
}

abbrev pub checked : Cover → Plan → Assignment
checked covered p = planned p
checked other p = bad_cover other

-- The loop of `_spans` over the windows in order, with the span that is being made
unfoldable pub spans_from : Window → List Window → List Window
spans_from (a, b) [] = (a, b) ∷ []
spans_from (a, b) ((c, d) ∷ ws) =
    let joined = spans_from (a, d) ws in
    let apart = spans_from (c, d) ws in if b == c then joined else (a, b) ∷ apart

abbrev pub spans_of : List Window → List Window
spans_of [] = []
spans_of (w ∷ ws) = spans_from w ws

unfoldable pub spans : List Window → List Window
spans ws = spans_of (sort_by before ws)

abbrev pub is_given : Option (Dict ℕ Window × Dict Window ℕ) → Bool
is_given none = false
is_given (some r) = true

module _ (m : Manifest) (peers : List PeerRecord) where
  -- Some tiling of the layers up to a boundary can be served.
  abbrev pub can_reach : ℕ → Bool
  can_reach end =
      any (λ t. is_given (assign m (numbered 0 peers) [] t))
        (tilings (keep_if (λ b. leb b end) m.boundaries))

  unfoldable pub reach_from : ℕ → List ℕ → ℕ
  reach_from reach [] = reach
  reach_from reach (end ∷ ends) =
      let rest = reach_from end ends in if can_reach end then rest else reach

  abbrev pub refusal_of : List Window → Refusal
  refusal_of [] = no_chain_after (reach_from 0 (drop 1 m.boundaries))
  refusal_of (w ∷ ws) = nobody_holds (spans (w ∷ ws))

  unfoldable pub why_uncovered : Refusal
  why_uncovered =
      if length peers == 0
      then no_peers
      else refusal_of (keep_if (λ s. not (any (λ r. fits m r s) peers)) (stages m))

abbrev pub finish : Manifest → List PeerRecord → Option Choice → Assignment
finish m peers none = uncovered (why_uncovered m peers)
finish m peers (some c) = checked (check_cover m c.tiling) (plan_of (numbered 0 peers) c)

abbrev pub current_or :
    List PeerRecord → Option (Dict String (Option Window)) → Dict String (Option Window)
current_or peers none = own_windows peers
current_or peers (some previous) = previous

unfoldable pub best_choice :
    Manifest → List PeerRecord → Option (Dict String (Option Window)) → Option Choice
best_choice m live previous =
    let peers = peers_of live in
    let ps = numbered 0 peers in
    let prev = previous_of m (index_of [] ps) [] (current_or peers previous) in
    best_from m ps prev none (tilings m.boundaries)

unfoldable pub plan : Manifest → List PeerRecord → Option (Dict String (Option Window)) → Assignment
plan m live previous =
    if ltb max_stages (length (stages m))
    then too_many_stages (length (stages m))
    else finish m (peers_of live) (best_choice m live previous)

-- The peers whose window is another now, or none
unfoldable pub changes : Dict String (Option Window) → Plan → Dict String (Window × Option Window)
changes [] new = []
changes ((peer, none) ∷ previous) new = changes previous new
changes ((peer, some w) ∷ previous) new =
    let rest = changes previous new in
    let now = lookup peer new.windows in if is_at now w then rest else (peer, (w, now)) ∷ rest
