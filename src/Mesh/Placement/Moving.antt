-- ===== src/Mesh/Placement/Moving.antt =====
-- commonnet/mesh/placement.py: a move that `should_move` allows leaves no stage without a peer.
use mathlib.Core.Path.{subst}
use mathlib.Core.Option.{some-injective, none-ne-some}
use common_network.Prelude.{
  ℕ, ◌+◌, ◌≤◌, ◌<◌, ◌≡◌, refl, ap, String, List, [], ◌∷◌, length, Option, none, some, Bool, true,
  false, ◌&&◌, ◌||◌, ◌==◌, number_eq, pair_eq, text_eq, ltb, not, if◌then◌else◌, any, keep_if,
  arith, All, Bool-cases, inl, inr,
}
use common_network.Mesh.Records.{PeerRecord}
use common_network.Mesh.Manifest.{Manifest, stages, one_if, is_window}
use common_network.Mesh.Manifest.Valid.{Rising}
use common_network.Mesh.Placement
use common_network.Mesh.Placement.{
  Window, window_of, covers, serves, first_where, coverage_of, serving, or_given,
}
use common_network.Mesh.Placement.Chosen.{choose_window-fits}

-- The live records once the first that passes the test has a new window.
abbrev pub moved : (PeerRecord → Bool) → Window → List PeerRecord → List PeerRecord
moved p new [] = []
moved p new (r ∷ rs) = if p r then record r { window = some new } ∷ rs else r ∷ moved p new rs

abbrev pub is_me : String → PeerRecord → Bool
is_me me r = r.peer == me && r.state == "up"

-- What a peer adds to the coverage of a stage.
abbrev adds : Manifest → PeerRecord → Window → ℕ
adds m r s = one_if (serves m r && covers (window_of r) s)

coverage_of-cons :
    (m : Manifest) (r : PeerRecord) (rs : List PeerRecord) (s : Window)
    → coverage_of m (r ∷ rs) s ≡ adds m r s + coverage_of m rs s
unfolding coverage_of
coverage_of-cons m r rs s = ground arith

coverage_of-moved :
    (m : Manifest) (p : PeerRecord → Bool) (new : Window) (live : List PeerRecord)
    (mine : PeerRecord) (s : Window)
    → first_where p live ≡ some mine
    → coverage_of m (moved p new live) s + adds m mine s
      ≡ coverage_of m live s + adds m (record mine { window = some new }) s
unfolding first_where
coverage_of-moved m p new [] mine s e = cc
coverage_of-moved m p new (r ∷ rs) mine s e = elim (Bool-cases (p r)) [
  | inl here ↦
      let same : r ≡ mine = some-injective _ _ (rw here at e) in
      subst
        (λ x.
          coverage_of m (moved p new (r ∷ rs)) s + adds m x s
          ≡ coverage_of m (r ∷ rs) s + adds m (record x { window = some new }) s)
        same
        (rw here (
          omega (
            arith,
            coverage_of-cons m r rs s,
            coverage_of-cons m (record r { window = some new }) rs s,
          )))
  | inr there ↦ rw there (
      omega (
        arith,
        coverage_of-cons m r rs s,
        coverage_of-cons m r (moved p new rs) s,
        coverage_of-moved m p new rs mine s (rw there at e),
      ))
]

adds-first :
    (m : Manifest) (p : PeerRecord → Bool) (live : List PeerRecord) (mine : PeerRecord) (s : Window)
    → first_where p live ≡ some mine
    → adds m mine s ≤ coverage_of m live s
unfolding first_where
adds-first m p [] mine s e = cc
adds-first m p (r ∷ rs) mine s e = elim (Bool-cases (p r)) [
  | inl here ↦
      let same : r ≡ mine = some-injective _ _ (rw here at e) in
      subst (λ x. adds m x s ≤ coverage_of m (r ∷ rs) s) same
        (omega (arith, coverage_of-cons m r rs s))
  | inr there ↦ omega (arith, coverage_of-cons m r rs s, adds-first m p rs mine s (rw there at e))
]

first_where-holds :
    (p : PeerRecord → Bool) (live : List PeerRecord) (mine : PeerRecord)
    → first_where p live ≡ some mine
    → p mine ≡ true
unfolding first_where
first_where-holds p [] mine e = cc
first_where-holds p (r ∷ rs) mine e = elim (Bool-cases (p r)) [
  | inl here ↦
      let same : r ≡ mine = some-injective _ _ (rw here at e) in subst (λ x. p x ≡ true) same here
  | inr there ↦ first_where-holds p rs mine (rw there at e)
]

-- What a move that is allowed has found.
record IsMove (m : Manifest) (live : List PeerRecord) (w new : Window) : Type 0 where
  spare : any (λ s. covers w s && ltb (coverage_of m live s) 2) (stages m) ≡ false
  fills : any (covers new) (keep_if (λ s. coverage_of m live s == 0) (stages m)) ≡ true
  on : is_window m new.0 new.1 ≡ true

move_to-fills :
    (gaps : List Window) (w new : Window) (best : Option Window)
    → Placement.move_to gaps w best ≡ some new
    → (best ≡ some new) × (any (covers new) gaps ≡ true)
move_to-fills gaps w new none e = cc
move_to-fills gaps w new (some v) e = elim (Bool-cases (v == w || not (any (covers v) gaps))) [
  | inl kept ↦ cc
  | inr taken ↦
      let same : v ≡ new = some-injective _ _ (rw taken at e) in
      (ap some same, subst (λ x. any (covers x) gaps ≡ true) same (ground (arith, taken)))
]

module _ (m : Manifest) (live : List PeerRecord) (me : String) (gib : Option ℕ)
    (backend : Option String) where
  move_from-IsMove :
      (mine : PeerRecord) (w new : Window)
      → Rising m.boundaries
      → Placement.move_from m live me gib backend mine w ≡ some new
      → IsMove m live w new
  unfolding Placement.move_from
  move_from-IsMove mine w new rising e =
      elim (Bool-cases (length (keep_if (λ s. coverage_of m live s == 0) (stages m)) == 0)) [
        | inl whole ↦ absurd (none-ne-some _ (rw whole at e))
        | inr torn ↦
            elim (Bool-cases (any (λ s. covers w s && ltb (coverage_of m live s) 2) (stages m))) [
              | inl thin ↦ absurd (none-ne-some _ (rw (torn, thin) at e))
              | inr safe ↦
                  let found =
                    move_to-fills (keep_if (λ s. coverage_of m live s == 0) (stages m)) w new _
                      (rw (torn, safe) at e) in
                  record {
                    spare = safe;
                    fills = found.1;
                    on =
                        ((choose_window-fits m live (some me) [] (or_given mine.gib gib)
                            (or_given mine.backend backend) rising).0
                          new found.0).0;
                  }
            ]
      ]

-- The stage keeps a peer.
abbrev pub Keeps : Manifest → List PeerRecord → List PeerRecord → Window → Type 0
Keeps m before after s = 0 < coverage_of m before s → 0 < coverage_of m after s

-- The stage has a peer for the first time.
abbrev pub gains : Manifest → List PeerRecord → List PeerRecord → Window → Bool
gains m before after s = coverage_of m before s == 0 && ltb 0 (coverage_of m after s)

module _ (m : Manifest) (live : List PeerRecord) (mine : PeerRecord) (p : PeerRecord → Bool)
    (new : Window) where
  stages_keep :
      (w : Window) (ss : List Window)
      → first_where p live ≡ some mine
      → mine.window ≡ some w
      → any (λ s. covers w s && ltb (coverage_of m live s) 2) ss ≡ false
      → All (Keeps m live (moved p new live)) ss
  stages_keep w [] first has spare = tt
  stages_keep w (s ∷ ss) first has spare = (
    λ h.
        let sum = coverage_of-moved m p new live mine s first in
        let at_w : covers (window_of mine) s ≡ covers w s =
          ap (λ o. covers (Placement.window_or o) s) has in
        ground (arith),
    stages_keep w ss first has (ground arith),
  )

  adds-new :
      (s : Window)
      → mine.state == "up" ≡ true
      → is_window m new.0 new.1 ≡ true
      → adds m (record mine { window = some new }) s ≡ one_if (covers new s)
  adds-new s up on = ground arith

  stages_gain :
      (ss : List Window)
      → first_where p live ≡ some mine
      → mine.state == "up" ≡ true
      → is_window m new.0 new.1 ≡ true
      → any (covers new) (keep_if (λ s. coverage_of m live s == 0) ss) ≡ true
      → any (gains m live (moved p new live)) ss ≡ true
  stages_gain [] first up on fills = cc
  stages_gain (s ∷ ss) first up on fills = ground (
    arith,
    coverage_of-moved m p new live mine s first,
    adds-new s up on,
    adds-first m p live mine s first,
    stages_gain ss first up on,
  )

module _ (m : Manifest) (live : List PeerRecord) (me : String) (gib : Option ℕ)
    (backend : Option String) where
  move_of-IsMove :
      (mine : PeerRecord) (at : Option Window) (new : Window)
      → Rising m.boundaries
      → Placement.move_of m live me gib backend mine at ≡ some new
      → (w : Window) × ((at ≡ some w) × IsMove m live w new)
  move_of-IsMove mine none new rising e = absurd (none-ne-some _ e)
  move_of-IsMove mine (some w) new rising e =
      (w, (refl, move_from-IsMove m live me gib backend mine w new rising e))

  moves_well :
      (found : Option PeerRecord) (new : Window)
      → Rising m.boundaries
      → first_where (is_me me) live ≡ found
      → Placement.move_given m live me gib backend found ≡ some new
      → All (Keeps m live (moved (is_me me) new live)) (stages m)
        × (any (gains m live (moved (is_me me) new live)) (stages m) ≡ true)
  moves_well none new rising first e = absurd (none-ne-some _ e)
  moves_well (some mine) new rising first e =
      let (w, (has, move)) = move_of-IsMove mine mine.window new rising e in
      let up : mine.state == "up" ≡ true =
        ground (arith, first_where-holds (is_me me) live mine first) in
      (
        stages_keep m live mine (is_me me) new w (stages m) first has move.spare,
        stages_gain m live mine (is_me me) new (stages m) first up move.on move.fills,
      )

  -- On a manifest whose boundaries rise, a move that `should_move` allows leaves a peer on every stage that
  -- has one, and gives a peer to a stage that has none.
  pub should_move-Keeps :
      (new : Window)
      → Rising m.boundaries
      → Placement.should_move m live me gib backend ≡ some new
      → All (Keeps m live (moved (is_me me) new live)) (stages m)
        × (any (gains m live (moved (is_me me) new live)) (stages m) ≡ true)
  unfolding Placement.should_move
  should_move-Keeps new rising e = moves_well (first_where (is_me me) live) new rising refl e
