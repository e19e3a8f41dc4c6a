-- ===== src/Mesh/Placement/Tests.antt =====
-- The window of a joining peer and the move of another on a small model, and the theorems at it.
use common_network.Prelude.{◌≡◌, ◌↔◌, refl, true, List, [], ◌∷◌, none, some, All, any}
use common_network.Prelude.Dict.{lookup}
use common_network.Prelude.Sort.{sort_by, insert_by}
use common_network.Mesh.Sample.{three_stages, peer_on}
use common_network.Mesh.Records.{PeerRecord}
use common_network.Mesh.Manifest
use common_network.Mesh.Manifest.{is_window, stages, fits, windows_fitting}
use common_network.Mesh.Manifest.Tests.{three_stages-Rising}
use common_network.Mesh.Placement
use common_network.Mesh.Placement.{Window}
use common_network.Mesh.Placement.Chosen.{choose_window-fits}
use common_network.Mesh.Placement.Moving.{Keeps, gains, moved, is_me, should_move-Keeps}

-- Two peers on the first two stages; nobody serves the last.
abbrev crowded : List PeerRecord
crowded = peer_on "p" (0, 4) ∷ peer_on "q" (0, 4) ∷ []

to_the_end : Placement.should_move three_stages crowded "q" none none ≡ some (2, 6)
unfolding Placement.should_move Placement.first_where Placement.move_from Placement.coverage_of
    Placement.serving Placement.choose_window Placement.key Placement.chain_rank
    Placement.repeatable Placement.replicas_of Placement.score_of Placement.min_from
    Placement.key_lt Manifest.windows_fitting Manifest.pairs_from Manifest.window_gib
    Manifest.per_layer Manifest.is_window Manifest.stages_of sort_by insert_by Placement.reach
    Placement.extend_rounds lookup
to_the_end = refl

should_move-Keeps_example :
    All (Keeps three_stages crowded (moved (is_me "q") (2, 6) crowded)) (stages three_stages)
    × (any (gains three_stages crowded (moved (is_me "q") (2, 6) crowded)) (stages three_stages)
        ≡ true)
should_move-Keeps_example =
    should_move-Keeps three_stages crowded "q" none none (2, 6) three_stages-Rising to_the_end

choose_window-fits_example :
    ((w : Window)
      → Placement.choose_window three_stages crowded none [] 4 "mlx" ≡ some w
      → (is_window three_stages w.0 w.1 ≡ true) × (fits three_stages 4 "mlx" w ≡ true))
    × ((Placement.choose_window three_stages crowded none [] 4 "mlx" ≡ none)
        ↔ (windows_fitting three_stages 4 "mlx" ≡ []))
choose_window-fits_example =
    choose_window-fits three_stages crowded none [] 4 "mlx" three_stages-Rising
