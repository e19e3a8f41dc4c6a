-- ===== src/Mesh/Cover/Once.antt =====
-- What passes one of the checks serves each layer of the model exactly once.
use common_network.Prelude.{
  ℕ, ◌-◌, ◌≤◌, ◌<◌, ◌≡◌, ◌↔◌, refl, sym, ◌∙◌, List, [], ◌∷◌, Bool, true, ◌&&◌, number_eq, ltb, leb,
  if◌then◌else◌, count_if, arith, All,
}
use common_network.Prelude.Sort.{
  sort_by, count_if-sort_by, Sorted, IsOrder, sort_by-Sorted, All-sort_by, All-of_sort_by,
}
use common_network.Mesh.Manifest.{Manifest, is_window}
use common_network.Mesh.Cover
use common_network.Mesh.Cover.{Window, covered, valid, before}

-- The layer is one of the window's.
abbrev pub serves : ℕ → Window → Bool
serves l (a, b) = leb a l && ltb l b

-- The windows follow one another from one position to another.
abbrev pub Tiles : ℕ → ℕ → List Window → Type 0
Tiles lo hi [] = lo ≡ hi
Tiles lo hi ((a, b) ∷ ws) = (a ≡ lo) × (a < b) × Tiles b hi ws

Tiles-le : (lo hi : ℕ) (ws : List Window) → Tiles lo hi ws → lo ≤ hi
Tiles-le lo hi [] t = omega arith
Tiles-le lo hi ((a, b) ∷ ws) t = omega (arith, Tiles-le b hi ws t.2)

Tiles-before :
    (l lo hi : ℕ) (ws : List Window) → Tiles lo hi ws → l < lo → count_if (serves l) ws ≡ 0
Tiles-before l lo hi [] t h = refl
Tiles-before l lo hi ((a, b) ∷ ws) t h = ground (arith, Tiles-before l b hi ws t.2)

-- How often a layer is served.
abbrev pub once_below : ℕ → ℕ → ℕ
once_below l n = if ltb l n then 1 else 0

pub Tiles-once :
    (l lo hi : ℕ) (ws : List Window)
    → Tiles lo hi ws
    → lo ≤ l
    → count_if (serves l) ws ≡ once_below l hi
Tiles-once l lo hi [] t h = ground arith
Tiles-once l lo hi ((a, b) ∷ ws) t h =
    ground (arith, Tiles-once l b hi ws t.2, Tiles-before l b hi ws t.2, Tiles-le b hi ws t.2)

route_from-Tiles :
    (n pos : ℕ) (eps : List Window) → (Cover.route_from n pos eps ≡ valid) ↔ Tiles pos n eps
unfolding Cover.route_from
route_from-Tiles n pos [] = ground arith
route_from-Tiles n pos ((a, b) ∷ eps) = ground (arith, route_from-Tiles n b eps)

-- A route passes `check_route` exactly where its endpoints, none of them empty, follow one another from
-- layer 0 to the end of the model; then each layer of the model is served by exactly one of them.
pub check_route-once :
    (eps : List Window) (n : ℕ)
    → ((Cover.check_route eps n ≡ valid) ↔ Tiles 0 n eps)
      × (Cover.check_route eps n ≡ valid → (l : ℕ) → count_if (serves l) eps ≡ once_below l n)
unfolding Cover.check_route
check_route-once eps n = (
  route_from-Tiles n 0 eps,
  λ e l. Tiles-once l 0 n eps ((route_from-Tiles n 0 eps).0 e) (omega arith),
)

module _ (m : Manifest) where
  abbrev pub OnStages : Window → Type 0
  OnStages (a, b) = is_window m a b ≡ true

  cover_from-Tiles :
      (pos : ℕ) (ws : List Window)
      → Cover.cover_from m pos ws ≡ covered
      → All OnStages ws × Tiles pos m.num_layers ws
  unfolding Cover.cover_from is_window
  cover_from-Tiles pos [] e = ground arith
  cover_from-Tiles pos ((a, b) ∷ ws) e = ground (arith, cover_from-Tiles b ws)

  start-served : (ws : List Window) → All OnStages ws → All (λ w. 0 < count_if (serves w.0) ws) ws
  unfolding is_window
  start-served [] h = tt
  start-served ((a, b) ∷ ws) h = (ground arith, more ws (start-served ws h.1))
    where
      more :
          (xs : List Window)
          → All (λ w. 0 < count_if (serves w.0) ws) xs
          → All (λ w. 0 < count_if (serves w.0) ((a, b) ∷ ws)) xs
      more [] k = tt
      more (x ∷ xs) k = (ground arith, more xs k.1)

  none_before : (l : ℕ) (ws : List Window) → All (λ w. l < w.0) ws → count_if (serves l) ws ≡ 0
  none_before l [] h = refl
  none_before l ((a, b) ∷ ws) h = ground (arith, none_before l ws)

  on_stages-lt : (a b : ℕ) → is_window m a b ≡ true → a < b
  unfolding is_window
  on_stages-lt a b h = ground arith

  starts_after :
      (a b : ℕ) (ws : List Window) → All (λ w. before (a, b) w ≡ true) ws → All (λ w. a ≤ w.0) ws
  starts_after a b [] h = tt
  starts_after a b ((c, d) ∷ ws) h = (ground arith, starts_after a b ws h.1)

  weaken : (p a : ℕ) (ws : List Window) → p < a → All (λ w. a ≤ w.0) ws → All (λ w. p < w.0) ws
  weaken p a [] lt h = tt
  weaken p a (w ∷ ws) lt h = (omega arith, weaken p a ws lt h.1)

  -- Where every layer from a position on is served at most once, nothing else starts within a window.
  starts_behind :
      (pos a b : ℕ) (ws xs : List Window)
      → pos ≤ a
      → ((l : ℕ) → pos ≤ l → count_if (serves l) ((a, b) ∷ ws) ≡ once_below l m.num_layers)
      → All (λ w. a ≤ w.0) xs
      → All (λ w. 0 < count_if (serves w.0) ws) xs
      → All (λ w. b ≤ w.0) xs
  starts_behind pos a b ws [] le once h k = tt
  starts_behind pos a b ws ((c, d) ∷ xs) le once h k =
      (ground (arith, once c), starts_behind pos a b ws xs le once h.1 k.1)

  first-pos :
      (pos a b : ℕ) (ws : List Window)
      → pos ≤ m.num_layers
      → pos ≤ a
      → a < b
      → All (λ w. a ≤ w.0) ws
      → ((l : ℕ) → pos ≤ l → count_if (serves l) ((a, b) ∷ ws) ≡ once_below l m.num_layers)
      → (a ≡ pos) × (b ≤ m.num_layers)
  first-pos pos a b ws le from lt starts once = (
    ground
        (arith, once pos, once a, λ (h : pos < a). none_before pos ws (weaken pos a ws h starts)),
    ground (arith, once (b - 1)),
  )

  cover_from-covered :
      (pos : ℕ) (ws : List Window)
      → pos ≤ m.num_layers
      → Sorted before ws
      → All OnStages ws
      → All (λ w. pos ≤ w.0) ws
      → ((l : ℕ) → pos ≤ l → count_if (serves l) ws ≡ once_below l m.num_layers)
      → Cover.cover_from m pos ws ≡ covered
  unfolding Cover.cover_from
  cover_from-covered pos [] le s on from once = ground (arith, once pos)
  cover_from-covered pos ((a, b) ∷ ws) le s on from once =
      let lt = on_stages-lt a b on.0 in
      let starts = starts_after a b ws s.0 in
      let (at_pos, within) = first-pos pos a b ws le from.0 lt starts once in
      let behind = starts_behind pos a b ws ws from.0 once starts (start-served ws on.1) in
      let rest = cover_from-covered b ws within s.1 on.1 behind (λ l h. ground (arith, once l)) in
      ground arith

  before-IsOrder : IsOrder before
  before-IsOrder = record { total = λ a b h. ground arith; trans = λ a b c h k. ground arith }

  from_zero : (ws : List Window) → All (λ w. 0 ≤ w.0) ws
  from_zero [] = tt
  from_zero (w ∷ ws) = (omega arith, from_zero ws)

  -- Windows pass `check_cover`, in any order, exactly where they start and end on stage boundaries,
  -- each layer of the model is in one of them and no layer beyond it is in any.
  pub check_cover-once :
      (ws : List Window)
      → (Cover.check_cover m ws ≡ covered)
        ↔ (All OnStages ws × ((l : ℕ) → count_if (serves l) ws ≡ once_below l m.num_layers))
  unfolding Cover.check_cover
  check_cover-once ws = (
    λ e.
        let (on, tiles) = cover_from-Tiles 0 (sort_by before ws) e in
        (
          All-of_sort_by before _ ws on,
          λ l.
              sym (count_if-sort_by before (serves l) ws)
              ∙ Tiles-once l 0 m.num_layers (sort_by before ws) tiles (omega arith),
        ),
    λ (on, once).
        cover_from-covered 0 (sort_by before ws) (omega arith)
          (sort_by-Sorted before before-IsOrder ws) (All-sort_by before _ ws on)
          (from_zero (sort_by before ws)) (λ l h. count_if-sort_by before (serves l) ws ∙ once l),
  )
