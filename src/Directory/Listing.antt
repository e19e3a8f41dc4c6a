-- ===== src/Directory/Listing.antt =====
-- gateway/app/directory.py: what the directory lists of a network.
use common_network.Prelude.{Bool, text_eq, number_eq, leb}
use common_network.Prelude.Dict.{Dict}
use common_network.Mesh.Records.{PeerRecord}
use common_network.Directory as Directory

abbrev pub newer : PeerRecord → PeerRecord → Bool
newer a b = leb b.ts a.ts
