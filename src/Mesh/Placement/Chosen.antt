-- ===== src/Mesh/Placement/Chosen.antt =====
-- commonnet/mesh/placement.py: the window that `choose_window` gives.
use common_network.Prelude.{
  ℕ, ◌≤◌, ◌<◌, ◌≡◌, ◌↔◌, refl, String, List, [], ◌∷◌, length, Option, none, some, Bool, true, false,
  ◌&&◌, number_eq, pair_eq, ltb, if◌then◌else◌, length-keep_if-le, arith, Bool-cases, inl, inr,
}
use mathlib.Core.Path.{subst}
use common_network.Prelude.Dict.{Dict}
use common_network.Mesh.Records.{PeerRecord}
use common_network.Mesh.Manifest.{Manifest, windows_fitting, is_window, fits}
use common_network.Mesh.Manifest.Valid.{Rising}
use common_network.Mesh.Manifest.Fitting.{times, windows_fitting-times, times-keep_if}
use common_network.Mesh.Placement
use common_network.Mesh.Placement.{Window, Rank, min_from, key_lt, best_of, or_else}

min_from-listed :
    (key : Window → List Rank) (best : Window) (ws : List Window)
    → 0 < times (min_from key best ws) (best ∷ ws)
unfolding min_from
min_from-listed key best [] = ground (arith, pair_eq.agrees best best)
min_from-listed key best (w ∷ ws) =
    listed_behind (key_lt (key w) (key best)) best w ws (min_from key)
      (min_from-listed key (if key_lt (key w) (key best) then w else best) ws)
  where
    listed_behind :
        (b : Bool) (best w : Window) (ws : List Window) (f : Window → List Window → Window)
        → 0 < times (f (if b then w else best) ws) ((if b then w else best) ∷ ws)
        → 0 < times (f (if b then w else best) ws) (best ∷ w ∷ ws)
    listed_behind true best w ws f h = ground arith
    listed_behind false best w ws f h = ground arith

module _ (m : Manifest) (live : List PeerRecord) (me : Option String) (cached : Dict Window ℕ) where
  best_of-listed :
      (repeats : Bool) (ws : List Window) (w : Window)
      → best_of m live me cached repeats ws ≡ some w
      → 0 < times w ws
  best_of-listed repeats [] w e = cc
  best_of-listed repeats (v ∷ vs) w e =
      let listed = min_from-listed (Placement.key m live me cached repeats) v vs in
      let same : min_from (Placement.key m live me cached repeats) v vs ≡ w = ground arith in
      subst (λ x. 0 < times x (v ∷ vs)) same listed

  or_else-listed :
      (candidates : List Window) (rs : List Window) (w : Window)
      → ((x : Window) → 0 < times x rs → 0 < times x candidates)
      → or_else m live me cached rs candidates ≡ some w
      → 0 < times w candidates
  or_else-listed candidates [] w h e = best_of-listed false candidates w e
  or_else-listed candidates (r ∷ rs) w h e = h w (best_of-listed true (r ∷ rs) w e)

  or_else-none :
      (candidates rs : List Window)
      → (length rs ≤ length candidates)
      → (or_else m live me cached rs candidates ≡ none) ↔ (candidates ≡ [])
  or_else-none [] [] le = (λ e. refl, λ e. refl)
  or_else-none (c ∷ cs) [] le = ((λ e. cc), (λ e. cc))
  or_else-none [] (r ∷ rs) le = absurd (omega arith)
  or_else-none (c ∷ cs) (r ∷ rs) le = ((λ e. cc), (λ e. cc))

  repeatable-le : (ws : List Window) → length (Placement.repeatable m live me cached ws) ≤ length ws
  unfolding Placement.repeatable
  repeatable-le ws =
      elim (Bool-cases
        (Placement.planned m live me cached && Placement.complete m live me cached)) [
          | inl e ↦ rw e (length-keep_if-le _ ws)
          | inr e ↦ rw e (omega arith)
        ]

  repeatable-times :
      (ws : List Window) (x : Window)
      → 0 < times x (Placement.repeatable m live me cached ws)
      → 0 < times x ws
  unfolding Placement.repeatable
  repeatable-times ws x =
      elim (Bool-cases
        (Placement.planned m live me cached && Placement.complete m live me cached)) [
          | inl e ↦ rw e (λ h. ground (
            arith,
            times-keep_if
                (λ w. ltb 0 (Placement.replicas_of m (Placement.others m live me cached) w)) x ws,
          ))
          | inr e ↦ rw e (λ h. absurd (omega arith))
        ]

  -- On a manifest whose boundaries rise, `choose_window` gives a window on the boundaries whose weights fit
  -- in the memory offered, and fails exactly where no window fits.
  pub choose_window-fits :
      (gib : ℕ) (backend : String)
      → Rising m.boundaries
      → ((w : Window)
          → Placement.choose_window m live me cached gib backend ≡ some w
          → (is_window m w.0 w.1 ≡ true) × (fits m gib backend w ≡ true))
        × ((Placement.choose_window m live me cached gib backend ≡ none)
            ↔ (windows_fitting m gib backend ≡ []))
  unfolding Placement.choose_window
  choose_window-fits gib backend rising =
      let ws = windows_fitting m gib backend in
      let rs = Placement.repeatable m live me cached ws in
      (
        λ w e.
            let listed = or_else-listed ws rs w (repeatable-times ws) e in
            ground (arith, windows_fitting-times m gib backend w.0 w.1 rising),
        or_else-none ws rs (repeatable-le ws),
      )
