-- ===== src/Mesh/Manifest/Tests.antt =====
-- The windows of a small model, and the theorem at it.
use common_network.Prelude.{◌≡◌, ◌&&◌, refl, [], ◌∷◌, none, some}
use common_network.Prelude.Dict.{lookup}
use common_network.Prelude.Sort.{sort_by, insert_by}
use common_network.Prelude.Text.{text_length}
use common_network.Mesh.Sample.{three_stages}
use common_network.Mesh.Manifest
use common_network.Mesh.Manifest.{
  Manifest, ManifestError, is_window, one_if, few_boundaries, bad_limit,
}
use common_network.Mesh.Manifest.Valid.{Rising, validate-IsLaidOut}
use common_network.Mesh.Manifest.Fitting.{times, windows_fitting-times}

pub sample_valid : Manifest.validate three_stages ≡ none
unfolding Manifest.validate Manifest.stages_of text_length
sample_valid = refl

pub three_stages-Rising : Rising three_stages.boundaries
three_stages-Rising = (validate-IsLaidOut three_stages sample_valid).rising

one_boundary : Manifest.validate (record three_stages { boundaries = 0 ∷ [] }) ≡ some few_boundaries
unfolding Manifest.validate Manifest.stages_of text_length
one_boundary = refl

tight_limit :
    Manifest.validate (record three_stages { max_window_layers = some 1 }) ≡ some bad_limit
unfolding Manifest.validate Manifest.stages_of text_length
tight_limit = refl

-- Four units of memory hold two stages.
four_units :
    Manifest.windows_fitting three_stages 4 "mlx" ≡ (0, 4) ∷ (2, 6) ∷ (0, 2) ∷ (2, 4) ∷ (4, 6) ∷ []
unfolding Manifest.windows_fitting Manifest.pairs_from Manifest.window_gib Manifest.per_layer
    sort_by insert_by lookup
four_units = refl

windows_fitting-times_example :
    times (2, 6) (Manifest.windows_fitting three_stages 4 "mlx")
    ≡ one_if (is_window three_stages 2 6 && Manifest.fits three_stages 4 "mlx" (2, 6))
windows_fitting-times_example = windows_fitting-times three_stages 4 "mlx" 2 6 three_stages-Rising
