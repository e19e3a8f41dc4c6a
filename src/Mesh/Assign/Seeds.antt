-- ===== src/Mesh/Assign/Seeds.antt =====
-- commonnet/mesh/assign.py: the candidates and the seeded pairs of `_assign`.
use common_network.Prelude.{
  ℕ, suc, ◌+◌, ◌≤◌, ◌<◌, ◌≡◌, refl, ap, List, [], ◌∷◌, map, length, Option, none, some, true, ◌&&◌,
  not, ◌==◌, number_eq, pair_eq, any, keep_if, All, arith, Bool-cases, inl, inr,
}
use mathlib.Core.Path.{subst}
use mathlib.Core.Bool.{false≢true}
use common_network.Prelude.Dict.{Dict, lookup, lookup-insert, insert-Once, All-insert}
use common_network.Prelude.Sort.{All-sort_by}
use common_network.Mesh.Records.{PeerRecord}
use common_network.Mesh.Manifest.{Manifest}
use common_network.Mesh.Cover.{Window}
use common_network.Mesh.Assign
use common_network.Mesh.Assign.{fits, numbered, set_if}
use common_network.Mesh.Assign.Match.{Matching, is_in, seeded, take_over}
use common_network.Mesh.Assign.Match.Sound.{IsMatching}

-- The number finds its peer, and is below the count of peers.
abbrev pub AreNumbered : Dict ℕ PeerRecord → Type 0
AreNumbered peers = All (λ p. (lookup p.0 peers ≡ some p.1) × (p.0 < length peers)) peers

module _ (k : ℕ) where
  numbered-above : (i : ℕ) (rs : List PeerRecord) → k < i → lookup k (numbered i rs) ≡ none
  unfolding lookup
  numbered-above i [] lt = refl
  numbered-above i (r ∷ rs) lt = ground (arith, numbered-above (suc i) rs)

numbered-finds :
    (i : ℕ) (rs : List PeerRecord)
    → All
        (λ p. (lookup p.0 (numbered i rs) ≡ some p.1) × (i ≤ p.0) × (p.0 < i + length rs))
        (numbered i rs)
unfolding lookup
numbered-finds i [] = tt
numbered-finds i (r ∷ rs) = (
  (ground (arith, number_eq.agrees i i), omega arith, omega arith),
  shift (numbered (suc i) rs) (numbered-finds (suc i) rs),
)
  where
    shift :
        (ps : Dict ℕ PeerRecord)
        → All
            (λ p.
              (lookup p.0 (numbered (suc i) rs) ≡ some p.1)
              × (suc i ≤ p.0)
              × (p.0 < suc i + length rs))
            ps
        → All
            (λ p.
              (lookup p.0 (numbered i (r ∷ rs)) ≡ some p.1)
              × (i ≤ p.0)
              × (p.0 < i + length (r ∷ rs)))
            ps
    shift [] h = tt
    shift (p ∷ ps) h = ((ground arith, omega arith, omega arith), shift ps h.1)

length-numbered : (i : ℕ) (rs : List PeerRecord) → length (numbered i rs) ≡ length rs
length-numbered i [] = refl
length-numbered i (r ∷ rs) = ap suc (length-numbered (suc i) rs)

pub numbered-AreNumbered : (rs : List PeerRecord) → AreNumbered (numbered 0 rs)
numbered-AreNumbered rs = weaken (numbered 0 rs) (numbered-finds 0 rs)
  where
    weaken :
        (ps : Dict ℕ PeerRecord)
        → All (λ p. (lookup p.0 (numbered 0 rs) ≡ some p.1) × (0 ≤ p.0) × (p.0 < 0 + length rs)) ps
        → All (λ p. (lookup p.0 (numbered 0 rs) ≡ some p.1) × (p.0 < length (numbered 0 rs))) ps
    weaken [] h = tt
    weaken (p ∷ ps) h = ((h.0.0, omega (arith, length-numbered 0 rs)), weaken ps h.1)

module _ (m : Manifest) (peers : Dict ℕ PeerRecord) where
  -- The window's weights fit in the memory of the peer.
  abbrev pub Fits : ℕ → Window → Type 0
  Fits i w = (r : PeerRecord) × ((lookup i peers ≡ some r) × (fits m r w ≡ true))

  abbrev pub AreFitting : Dict ℕ Window → Type 0
  AreFitting windows = (i : ℕ) (w : Window) → lookup i windows ≡ some w → Fits i w

module _ (m : Manifest) (peers : Dict ℕ PeerRecord) (previous : Dict ℕ Window) where
  module _ (listed : AreNumbered peers) where
    All-is_in :
        (P : ℕ → Type 0) (ps : Dict ℕ PeerRecord) (i : ℕ)
        → All (λ p. P p.0) ps
        → is_in i (map (λ p. p.0) ps) ≡ true
        → P i
    All-is_in P [] i h e = absurd (false≢true e)
    All-is_in P (p ∷ ps) i h e = elim (Bool-cases (p.0 == i)) [
      | inl same ↦ subst P ((number_eq.agrees p.0 i).0 same) h.0
      | inr other ↦ All-is_in P ps i h.1 (ground (arith, other))
    ]

    fitting :
        (w : Window) (ps : Dict ℕ PeerRecord)
        → All (λ p. (lookup p.0 peers ≡ some p.1) × (p.0 < length peers)) ps
        → All (λ p. Fits m peers p.0 w × (p.0 < length peers)) (keep_if (λ p. fits m p.1 w) ps)
    fitting w [] h = tt
    fitting w (p ∷ ps) h = elim (Bool-cases (fits m p.1 w)) [
      | inl e ↦ rw e (((p.1, (h.0.0, e)), h.0.1), fitting w ps h.1)
      | inr e ↦ rw e (fitting w ps h.1)
    ]

    pub candidates-Fits :
        (w : Window) (i : ℕ)
        → is_in i (Assign.candidates m peers previous w) ≡ true
        → Fits m peers i w × (i < length peers)
    unfolding Assign.candidates
    candidates-Fits w i h =
        All-is_in (λ j. Fits m peers j w × (j < length peers)) _ i
          (All-sort_by _ (λ p. Fits m peers p.0 w × (p.0 < length peers)) _
            (fitting w peers listed))
          h

  -- A pair of the seed: the peer is a candidate and was on the window.
  abbrev pub IsSeed : Window → ℕ → Type 0
  IsSeed w i =
      (is_in i (Assign.candidates m peers previous w) ≡ true) × (lookup i previous ≡ some w)

  seed_one-IsSeed :
      (tiling : List Window) (i : ℕ) (w : Option Window) (seed : Dict Window ℕ)
      → lookup i previous ≡ w
      → All (λ kv. IsSeed kv.0 kv.1) seed
      → All (λ kv. IsSeed kv.0 kv.1) (Assign.seed_one m peers previous tiling i w seed)
  seed_one-IsSeed tiling i none seed was h = h
  seed_one-IsSeed tiling i (some w) seed was h =
      elim (Bool-cases (
        any (λ v. v == w) tiling
        && is_in i (Assign.candidates m peers previous w)
        && not (any (λ kv. kv.0 == w) seed))) [
          | inl e ↦ rw e (All-insert IsSeed w i seed (ground (arith, e), was) h)
          | inr e ↦ rw e h
        ]

  pub seed_all-IsSeed :
      (tiling : List Window) (ps : Dict ℕ PeerRecord) (seed : Dict Window ℕ)
      → All (λ kv. IsSeed kv.0 kv.1) seed
      → All (λ kv. IsSeed kv.0 kv.1) (Assign.seed_all m peers previous tiling ps seed)
  unfolding Assign.seed_all
  seed_all-IsSeed tiling [] seed h = h
  seed_all-IsSeed tiling (p ∷ ps) seed h =
      seed_all-IsSeed tiling ps _ (seed_one-IsSeed tiling p.0 (lookup p.0 previous) seed refl h)

  abbrev pub FromPrevious : Matching → Type 0
  FromPrevious mt = (w : Window) (i : ℕ) → lookup w mt.match ≡ some i → lookup i previous ≡ some w

  pub seeded-IsMatching :
      (mt : Matching) (seed : Dict Window ℕ)
      → IsMatching (Assign.candidates m peers previous) mt
      → FromPrevious mt
      → All (λ kv. IsSeed kv.0 kv.1) seed
      → IsMatching (Assign.candidates m peers previous) (seeded mt seed)
  unfolding seeded take_over
  seeded-IsMatching mt [] ok was h = ok
  seeded-IsMatching mt ((w, i) ∷ seed) ok was h =
      let found = λ (v : Window). lookup-insert w v i mt.match in
      let holds = λ (j : ℕ). lookup-insert i j w mt.owner in
      seeded-IsMatching (take_over w i mt) seed
        (record {
          owned = λ v j e.
              ground (arith, found v, holds j, pair_eq.agrees w v, was v j, ok.owned v j, h.0.1);
          drawn = λ v j e. ground (arith, found v, pair_eq.agrees w v, ok.drawn v j, h.0.0);
          once = insert-Once w i mt.match ok.once;
        })
        (λ v j e. ground (arith, found v, pair_eq.agrees w v, was v j, h.0.1)) h.1
