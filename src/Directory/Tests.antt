-- ===== src/Directory/Tests.antt =====
-- Runs of the directory, and the theorems at those inputs.
use common_network.Prelude.{
  ℕ, ◌+◌, ◌≡◌, refl, String, [], Option, none, some, text_eq, number_eq, pair_eq, count_if, ◌==◌,
}
use common_network.Prelude.Dict.{lookup, insert}
use common_network.Mesh.Records.{PeerRecord}
use common_network.Directory as Directory
use common_network.Directory.{stored, stale, slow_down, not_json, not_live}
use common_network.Directory.Caps.{IsWithin, announce-IsWithin, empty-IsWithin}

abbrev empty : Directory.Directory
empty = record { records = []; hits = [] }

abbrev said_by : String → ℕ → PeerRecord
said_by peer seq = record {
  peer = peer;
  network = "net";
  url = none;
  window = none;
  backend = "mlx";
  state = "up";
  gib = 8;
  speed = 0;
  seq = seq;
  ts = 1000 + seq;
}

abbrev genuine : PeerRecord → Option String
genuine r = none

announced :
    (Directory.announce empty 1005 (some "10.0.0.1") 700 (some (said_by "a" 1)) genuine).1 ≡ stored
unfolding Directory.announce Directory.limited Directory.clean Directory.take_record
    Directory.is_live Directory.store_record Directory.expire Directory.store_new lookup insert
announced = refl

abbrev one_record : Directory.Directory
one_record = (Directory.announce empty 1005 (some "10.0.0.1") 700 (some (said_by "a" 1)) genuine).0

older_is_stale :
    (Directory.announce one_record 1006 (some "10.0.0.1") 700 (some (said_by "a" 0)) genuine).1
    ≡ stale
unfolding Directory.announce Directory.limited Directory.clean Directory.take_record
    Directory.is_live Directory.store_record Directory.expire Directory.store_new lookup insert
older_is_stale = refl

-- The cap of an address is not asked for a record that renews another's: the address then has one more.
moves_to_address :
    count_if
      (λ kv. kv.1.src == "10.0.0.2")
      (Directory.announce one_record 1006
        (some "10.0.0.2")
        700
        (some (said_by "a" 1))
        genuine).0.records
    ≡ 1
unfolding Directory.announce Directory.limited Directory.clean Directory.take_record
    Directory.is_live Directory.store_record Directory.expire Directory.store_new lookup insert
moves_to_address = refl

announce-IsWithin_example :
    IsWithin (Directory.announce empty 1005 (some "10.0.0.1") 700 (some (said_by "a" 1)) genuine).0
announce-IsWithin_example =
    announce-IsWithin empty empty-IsWithin 1005 (some "10.0.0.1") 700 (some (said_by "a" 1)) genuine
