-- ===== src/Presets.antt =====
-- commonnet/presets.py: the model for a planned number of nodes, and the limit on their windows.
-- A count is a natural number; `none` is the `ValueError`. The hint `planned_nodes` is left out.
use common_network.Prelude.{
  ℕ, String, Option, none, some, ◌&&◌, ◌==◌, number_eq, leb, if◌then◌else◌,
}
use common_network.Mesh.Manifest.{Manifest}

unfoldable pub model_for_nodes : ℕ → Option String
model_for_nodes count =
    if leb 1 count && leb count 7
    then some (
        if leb count 2
        then "qwen3-8b"
        else if leb count 6
        then "qwen3.5-35b-a3b"
        else "qwen3.5-122b-a10b")
    else none

abbrev pub limit_for : ℕ → ℕ
limit_for count =
    if count == 1 then 36 else if count == 2 then 18 else if leb count 6 then 16 else 7

abbrev pub with_limit : Manifest → ℕ → Option String → Option Manifest
with_limit m count none = none
with_limit m count (some model) = some (record m { max_window_layers = some (limit_for count) })

unfoldable pub placement_manifest : Manifest → ℕ → Option Manifest
placement_manifest m count = with_limit m count (model_for_nodes count)
