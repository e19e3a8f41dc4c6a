-- ===== src/Mesh/Sample.antt =====
-- A small manifest and peers on it, for the tests.
use common_network.Prelude.{ℕ, String, [], ◌∷◌, some, none}
use common_network.Mesh.Manifest.{Manifest}
use common_network.Mesh.Records.{PeerRecord}

-- Three stages of two layers; a layer takes one unit of memory on every backend.
abbrev pub three_stages : Manifest
three_stages = record {
  id = "tiny";
  num_layers = 6;
  max_window_layers = none;
  boundaries = 0 ∷ 2 ∷ 4 ∷ 6 ∷ [];
  gib_per_layer = ("mlx", 1) ∷ [];
  fixed_gib = 0;
  min_replicas = 2;
  io_gib = [];
}

abbrev pub peer_on : String → ℕ × ℕ → PeerRecord
peer_on name w = record {
  peer = name;
  network = "net";
  url = some "https://a";
  window = some w;
  backend = "mlx";
  state = "up";
  gib = 4;
  speed = 0;
  seq = 1;
  ts = 1000;
}
