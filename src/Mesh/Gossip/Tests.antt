-- ===== src/Mesh/Gossip/Tests.antt =====
-- Runs of the peer table, and the theorems at those inputs.
use mathlib.Core.List.Perm as Permutation
use common_network.Prelude.{
  ℕ, ◌+◌, ◌≡◌, refl, List, [], ◌∷◌, none, some, Bool, true, false, arith, text_eq, number_eq,
  String,
}
use common_network.Prelude.Dict.{lookup, insert}
use common_network.Mesh.Records.{PeerRecord}
use common_network.Mesh.Gossip
use common_network.Mesh.Gossip.{PeerTable, newer, forget_seconds}
use common_network.Mesh.Gossip.Merge.{seq_at, merge_many-Perm}
use common_network.Mesh.Gossip.Newest.{AtLeast, merge_many-AtLeast}
use common_network.Mesh.Gossip.Export.{IsNewest, export-IsNewest}

abbrev genuine : PeerRecord → Bool
genuine r = true

abbrev said_by : String → ℕ → PeerRecord
said_by peer seq = record {
  peer = peer;
  network = "net";
  url = none;
  window = some (0, 4);
  backend = "mlx";
  state = "up";
  gib = 8;
  speed = 0;
  seq = seq;
  ts = 1000 + seq;
}

abbrev empty_table : PeerTable
empty_table = record { network = "net"; records = [] }

abbrev newest_last : List PeerRecord
newest_last = said_by "a" 1 ∷ said_by "b" 1 ∷ said_by "a" 2 ∷ []

abbrev newest_first : List PeerRecord
newest_first = said_by "b" 1 ∷ said_by "a" 1 ∷ said_by "a" 2 ∷ []

abbrev merged : PeerTable
merged = (Gossip.merge_many genuine empty_table (λ i. 1010) newest_last).0

keeps_newest : seq_at merged "a" ≡ some 2
unfolding seq_at Gossip.get Gossip.merge_many Gossip.merge_all Gossip.merge Gossip.welcome lookup
    insert
keeps_newest = refl

leaves_other_network :
    (Gossip.merge genuine empty_table 1010 (record (said_by "a" 1) { network = "other" })).1 ≡ false
unfolding Gossip.merge Gossip.welcome
leaves_other_network = refl

merge_many-Perm_example :
    seq_at (Gossip.merge_many genuine empty_table (λ j. 1010) newest_last).0 "a"
    ≡ seq_at (Gossip.merge_many genuine empty_table (λ j. 1010) newest_first).0 "a"
merge_many-Perm_example =
    merge_many-Perm genuine empty_table 1010 {rs = newest_last} {rs' = newest_first} "a"
      (Permutation.swap (said_by "b" 1) (said_by "a" 1) (said_by "a" 2 ∷ [])) (omega arith)
      (omega arith)

merge_many-AtLeast_example :
    AtLeast genuine (seq_at (Gossip.merge_many genuine empty_table (λ j. 1010) newest_last).0 "b") 1
unfolding Gossip.welcome
merge_many-AtLeast_example =
    merge_many-AtLeast genuine empty_table 1010 (said_by "b" 1) (said_by "a" 1 ∷ [])
      (said_by "a" 2 ∷ []) (omega arith) refl

export-IsNewest_example : IsNewest merged 1010 1 (Gossip.export merged 1010 1).1
export-IsNewest_example = export-IsNewest merged 1010 1
