-- ===== src/Mesh/Assign/Served.antt =====
-- commonnet/mesh/assign.py: what `_assign` gives for one tiling.
use common_network.Prelude.{
  ℕ, suc, ◌<◌, ◌≡◌, refl, sym, ap, ◌∙◌, List, [], ◌∷◌, length, Option, none, some, true, ◌==◌,
  number_eq, pair_eq, All, arith, Bool-cases, Option-cases, inl, inr,
}
use mathlib.Core.Path.{subst}
use mathlib.Core.Option.{none-ne-some, some-injective}
use common_network.Prelude.Dict.{Dict, lookup, insert, lookup-insert, All-Once}
use common_network.Mesh.Records.{PeerRecord}
use common_network.Mesh.Manifest.{Manifest}
use common_network.Mesh.Manifest.Valid.{Rising}
use common_network.Mesh.Placement.Chosen.{choose_window-fits}
use common_network.Mesh.Cover.{Window}
use common_network.Mesh.Assign
use common_network.Mesh.Assign.{fits}
use common_network.Mesh.Assign.Match.{Matching, is_matched}
use common_network.Mesh.Assign.Match.Sound.{IsMatching, match_all-IsMatching}
use common_network.Mesh.Assign.Seeds.{
  AreNumbered, Fits, AreFitting, candidates-Fits, seed_all-IsSeed, seeded-IsMatching,
}

module _ (m : Manifest) (peers : Dict ℕ PeerRecord) where
  -- Each window of the tiling is the window of a peer, so of a peer of its own; and every peer that has a
  -- window has the memory for it.
  abbrev pub IsServed : List Window → Dict ℕ Window → Type 0
  IsServed tiling windows =
      All (λ w. (i : ℕ) × (lookup i windows ≡ some w)) tiling × AreFitting m peers windows

module _ (m : Manifest) (peers : Dict ℕ PeerRecord) (previous : Dict ℕ Window) where
  module _ (own : ℕ → Option Window) where
    by_peer-keeps :
        (acc : Dict ℕ Window) (chain : Dict Window ℕ) (i : ℕ) (w : Window)
        → All (λ kv. own kv.1 ≡ some kv.0) chain
        → own i ≡ some w
        → lookup i acc ≡ some w
        → lookup i (Assign.by_peer m peers previous acc chain) ≡ some w
    unfolding Assign.by_peer
    by_peer-keeps acc [] i w h at e = e
    by_peer-keeps acc ((v, j) ∷ chain) i w h at e =
        by_peer-keeps (insert j v acc) chain i w h.1 at (elim (Bool-cases (j == i)) [
          | inl same ↦
              let there : own i ≡ some v =
                subst (λ k. own k ≡ some v) ((number_eq.agrees j i).0 same) h.0 in
              ground (arith, lookup-insert j i v acc, there)
          | inr other ↦ ground (arith, lookup-insert j i v acc)
        ])

    by_peer-finds :
        (acc : Dict ℕ Window) (chain : Dict Window ℕ) (i : ℕ) (w : Window)
        → All (λ kv. own kv.1 ≡ some kv.0) chain
        → lookup w chain ≡ some i
        → lookup i (Assign.by_peer m peers previous acc chain) ≡ some w
    unfolding Assign.by_peer lookup
    by_peer-finds acc [] i w h e = cc
    by_peer-finds acc ((v, j) ∷ chain) i w h e = elim (Bool-cases (v == w)) [
      | inl here ↦
          let same : j ≡ i = some-injective _ _ (rw here at e) in
          let at : v ≡ w = (pair_eq.agrees v w).0 here in
          let owns : own i ≡ some w = subst (λ k. own k ≡ some w) same (h.0 ∙ ap some at) in
          let set : lookup i (insert j v acc) ≡ some w =
            lookup-insert j i v acc ∙ rw ((number_eq.agrees j i).1 same) (ap some at) in
          by_peer-keeps (insert j v acc) chain i w h.1 owns set
      | inr there ↦ by_peer-finds (insert j v acc) chain i w h.1 (rw there at e)
    ]

  insert-AreFitting :
      (i : ℕ) (w : Window) (windows : Dict ℕ Window)
      → Fits m peers i w
      → AreFitting m peers windows
      → AreFitting m peers (insert i w windows)
  insert-AreFitting i w windows fit h j v e = elim (Bool-cases (i == j)) [
    | inl same ↦
        let at : i ≡ j = (number_eq.agrees i j).0 same in
        let is : w ≡ v = some-injective _ _ (ground (arith, lookup-insert i j w windows)) in
        subst (λ k. Fits m peers k v) at (subst (Fits m peers i) is fit)
    | inr other ↦ h j v (ground (arith, lookup-insert i j w windows))
  ]

  by_peer-AreFitting :
      (acc : Dict ℕ Window) (chain : Dict Window ℕ)
      → All (λ kv. Fits m peers kv.1 kv.0) chain
      → AreFitting m peers acc
      → AreFitting m peers (Assign.by_peer m peers previous acc chain)
  unfolding Assign.by_peer
  by_peer-AreFitting acc [] h ok = ok
  by_peer-AreFitting acc ((w, i) ∷ chain) h ok =
      by_peer-AreFitting (insert i w acc) chain h.1 (insert-AreFitting i w acc h.0 ok)

  module _ (rising : Rising m.boundaries) where
    any_choice :
        (r : PeerRecord) (windows : Dict ℕ Window) (w : Window)
        → Assign.chosen_for m peers previous r windows none ≡ some w
        → fits m r w ≡ true
    any_choice r windows w e =
        let found =
          (choose_window-fits m (Assign.view m peers previous windows) none [] r.gib r.backend
              rising).0
            w e in
        ground (arith, found.1)

    chosen_for-fits :
        (r : PeerRecord) (windows : Dict ℕ Window) (kept : Option Window) (w : Window)
        → Assign.chosen_for m peers previous r windows (Assign.kept_if m peers previous r kept)
          ≡ some w
        → fits m r w ≡ true
    chosen_for-fits r windows none w e = any_choice r windows w e
    chosen_for-fits r windows (some v) w e = elim (Bool-cases (fits m r v)) [
      | inl fit ↦
          let same : v ≡ w = some-injective _ _ (rw fit at e) in
          subst (λ x. fits m r x ≡ true) same fit
      | inr unfit ↦ any_choice r windows w (rw unfit at e)
    ]

    set_if-AreFitting :
        (i : ℕ) (o : Option Window) (windows : Dict ℕ Window)
        → ((w : Window) → o ≡ some w → Fits m peers i w)
        → AreFitting m peers windows
        → AreFitting m peers (Assign.set_if m peers previous i o windows)
    set_if-AreFitting i none windows h ok = ok
    set_if-AreFitting i (some w) windows h ok = insert-AreFitting i w windows (h w refl) ok

    place_one-AreFitting :
        (i : ℕ) (r : PeerRecord) (o : Option Window) (windows : Dict ℕ Window)
        → lookup i peers ≡ some r
        → AreFitting m peers windows
        → AreFitting m peers (Assign.place_one m peers previous i r o windows)
    place_one-AreFitting i r (some w) windows at ok = ok
    place_one-AreFitting i r none windows at ok =
        set_if-AreFitting i _ windows
          (λ w e. (r, (at, chosen_for-fits r windows (lookup i previous) w e))) ok

    place_all-AreFitting :
        (ps : Dict ℕ PeerRecord) (windows : Dict ℕ Window)
        → All (λ p. (lookup p.0 peers ≡ some p.1) × (p.0 < length peers)) ps
        → AreFitting m peers windows
        → AreFitting m peers (Assign.place_all m peers previous ps windows)
    unfolding Assign.place_all
    place_all-AreFitting [] windows h ok = ok
    place_all-AreFitting (p ∷ ps) windows h ok =
        place_all-AreFitting ps _ h.1
          (place_one-AreFitting p.0 p.1 (lookup p.0 windows) windows h.0.0 ok)

  place_one-keeps :
      (i : ℕ) (r : PeerRecord) (o : Option Window) (windows : Dict ℕ Window) (j : ℕ) (w : Window)
      → lookup i windows ≡ o
      → lookup j windows ≡ some w
      → lookup j (Assign.place_one m peers previous i r o windows) ≡ some w
  place_one-keeps i r (some v) windows j w at e = e
  place_one-keeps i r none windows j w at e = set_if-keeps (
      Assign.chosen_for m peers previous r windows
        (Assign.kept_if m peers previous r (lookup i previous)))
    where
      set_if-keeps :
          (o : Option Window) → lookup j (Assign.set_if m peers previous i o windows) ≡ some w
      set_if-keeps none = e
      set_if-keeps (some v) = elim (Bool-cases (i == j)) [
        | inl same ↦
            let is : i ≡ j = (number_eq.agrees i j).0 same in
            absurd (none-ne-some w (sym at ∙ ap (λ k. lookup k windows) is ∙ e))
        | inr other ↦ ground (arith, lookup-insert i j v windows)
      ]

  place_all-keeps :
      (ps : Dict ℕ PeerRecord) (windows : Dict ℕ Window) (j : ℕ) (w : Window)
      → lookup j windows ≡ some w
      → lookup j (Assign.place_all m peers previous ps windows) ≡ some w
  unfolding Assign.place_all
  place_all-keeps [] windows j w e = e
  place_all-keeps (p ∷ ps) windows j w e =
      place_all-keeps ps _ j w (place_one-keeps p.0 p.1 (lookup p.0 windows) windows j w refl e)

  module _ (listed : AreNumbered peers) (rising : Rising m.boundaries) where
    placed-windows :
        (mt : Matching)
        → IsMatching (Assign.candidates m peers previous) mt
        → AreFitting m peers
            (Assign.place_all m peers previous peers (Assign.by_peer m peers previous [] mt.match))
    unfolding lookup
    placed-windows mt ok = place_all-AreFitting rising peers _ listed (
        by_peer-AreFitting [] mt.match
          (All-Once (λ w i. Fits m peers i w) mt.match ok.once
            (λ w i e. (candidates-Fits m peers previous listed w i (ok.drawn w i e)).0))
          (λ i w e. absurd (none-ne-some w e)))

    served_windows :
        (mt : Matching) (ws : List Window)
        → IsMatching (Assign.candidates m peers previous) mt
        → All (λ w. is_matched (Assign.candidates m peers previous) w mt ≡ true) ws
        → All
            (λ w.
              (i : ℕ) × (lookup i (
                  Assign.place_all m peers previous peers
                    (Assign.by_peer m peers previous [] mt.match))
                ≡ some w))
            ws
    served_windows mt [] ok h = tt
    served_windows mt (w ∷ ws) ok h = elim (Option-cases (lookup w mt.match)) [
      | inl missing ↦ absurd (ground (arith, h.0))
      | inr (i, at) ↦ (
        (
          i,
          place_all-keeps peers _ i w (
              by_peer-finds (λ j. lookup j mt.owner) [] mt.match i w
                (All-Once (λ v j. lookup j mt.owner ≡ some v) mt.match ok.once ok.owned) at),
        ),
        served_windows mt ws ok h.1,
      )
    ]

    placed-IsServed :
        (o : Option Matching) (tiling : List Window) (windows : Dict ℕ Window)
        (chain : Dict Window ℕ)
        → ((mt : Matching)
            → o ≡ some mt
            → IsMatching (Assign.candidates m peers previous) mt
              × All (λ w. is_matched (Assign.candidates m peers previous) w mt ≡ true) tiling)
        → Assign.placed m peers previous o ≡ some (windows, chain)
        → IsServed m peers tiling windows
    placed-IsServed none tiling windows chain h e = absurd (none-ne-some _ e)
    placed-IsServed (some mt) tiling windows chain h e =
        let (ok, all) = h mt refl in
        subst (IsServed m peers tiling) (ap (λ p. p.0) (some-injective _ _ e))
          (served_windows mt tiling ok all, placed-windows mt ok)

    matched :
        (tiling : List Window) (mt : Matching)
        → Assign.match_tiling m peers previous tiling ≡ some mt
        → IsMatching (Assign.candidates m peers previous) mt
          × All (λ w. is_matched (Assign.candidates m peers previous) w mt ≡ true) tiling
    unfolding Assign.match_tiling lookup
    matched tiling mt e =
        let start =
          seeded-IsMatching m peers previous (Assign.bare m peers previous)
            (Assign.seed_all m peers previous tiling peers [])
            (record {
              owned = λ w i f. absurd (none-ne-some i f);
              drawn = λ w i f. absurd (none-ne-some i f);
              once = λ w. omega arith;
            })
            (λ w i f. absurd (none-ne-some i f))
            (seed_all-IsSeed m peers previous tiling peers [] tt) in
        let found =
          match_all-IsMatching (Assign.candidates m peers previous) (suc (length peers)) tiling _ mt
            start e in
        (found.0, found.1)

    -- On a manifest whose boundaries rise, an assignment that `_assign` gives for a tiling has a peer of its own
    -- for each window of it, and every peer that has a window has the memory for it.
    pub assign-IsServed :
        (tiling : List Window) (windows : Dict ℕ Window) (chain : Dict Window ℕ)
        → Assign.assign m peers previous tiling ≡ some (windows, chain)
        → IsServed m peers tiling windows
    unfolding Assign.assign
    assign-IsServed tiling windows chain e =
        elim (Bool-cases (Assign.some_bare m peers previous tiling)) [
          | inl none_fits ↦ absurd (none-ne-some _ (rw none_fits at e))
          | inr all_fit ↦
              placed-IsServed (Assign.match_tiling m peers previous tiling) tiling windows chain
                (matched tiling) (rw all_fit at e)
        ]
