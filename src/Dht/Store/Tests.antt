-- ===== src/Dht/Store/Tests.antt =====
-- Runs of the store with caps of one and two, and the theorems at those inputs.
use common_network.Prelude.{
  ℕ, ◌+◌, ◌≡◌, refl, String, Option, none, some, true, false, text_eq, number_eq, All,
}
use common_network.Prelude.Dict.{lookup, insert}
use common_network.Mesh.Records.{PeerRecord, older_than, live_seconds}
use common_network.Dht.Store
use common_network.Dht.Store.{ValueStore, or_empty, StoreError, too_many, key_full, older}
use common_network.Dht.Store.Bounds.{IsValid, init-IsValid, prune-IsValid}
use common_network.Dht.Store.Puts.{put-IsValid}
use common_network.Dht.Store.Holds.{Holds, put-Holds, get-Fresh}

abbrev said_by : String → ℕ → PeerRecord
said_by peer seq = record {
  peer = peer;
  network = "net";
  url = none;
  window = none;
  backend = "mlx";
  state = "up";
  gib = 8;
  speed = 0;
  seq = seq;
  ts = 1000 + seq;
}

-- Every record is genuine and small; the key of every network is 7 and that of every peer 8.
abbrev put_here : ValueStore → ℕ → PeerRecord → String → ValueStore × Option StoreError
put_here st now r source = Store.put (λ r. true) (λ r. 100) (λ n. 7) (λ p. 8) st now 7 r source

abbrev fresh : ValueStore
fresh = Store.init 2 1

abbrev one_held : ValueStore
one_held = (put_here fresh 1001 (said_by "a" 1) "10.0.0.1").0

fresh-IsValid : IsValid fresh
fresh-IsValid = init-IsValid 2 1

one_held-IsValid : IsValid one_held
one_held-IsValid =
    put-IsValid (λ r. true) (λ r. 100) (λ n. 7) (λ p. 8) fresh-IsValid 1001 7 (said_by "a" 1)
      "10.0.0.1"

source_cap : (put_here one_held 1002 (said_by "b" 1) "10.0.0.1").1 ≡ some too_many
unfolding Store.put Store.check_record Store.put_at Store.put_new Store.put_capped Store.prune
    Store.prune_data Store.prune_bucket Store.init lookup insert or_empty
source_cap = refl

older_refused : (put_here one_held 1002 (said_by "a" 0) "10.0.0.1").1 ≡ some older
unfolding Store.put Store.check_record Store.put_at Store.put_new Store.put_capped Store.prune
    Store.prune_data Store.prune_bucket Store.init lookup insert or_empty Store.replace
older_refused = refl

put-IsValid_example :
    IsValid
      (Store.put
        (λ r. true)
        (λ r. 100)
        (λ n. 7)
        (λ p. 8)
        one_held
        1002
        7
        (said_by "a" 2)
        "10.0.0.2").0
put-IsValid_example =
    put-IsValid (λ r. true) (λ r. 100) (λ n. 7) (λ p. 8) one_held-IsValid 1002 7 (said_by "a" 2)
      "10.0.0.2"

prune-IsValid_example : IsValid (Store.prune one_held 1100)
prune-IsValid_example = prune-IsValid one_held-IsValid 1100

put-Holds_example :
    Holds
      (Store.put
        (λ r. true)
        (λ r. 100)
        (λ n. 7)
        (λ p. 8)
        one_held
        1002
        7
        (said_by "a" 2)
        "10.0.0.2").0
      7
      (said_by "a" 2)
unfolding Store.put Store.check_record Store.put_at Store.put_new Store.put_capped Store.prune
    Store.prune_data Store.prune_bucket Store.init lookup insert or_empty Store.replace
put-Holds_example =
    put-Holds (λ r. true) (λ r. 100) (λ n. 7) (λ p. 8) one_held 1002 7 (said_by "a" 2) "10.0.0.2"
      refl

get-Fresh_example :
    All (λ r. older_than live_seconds 1002 r ≡ false) (Store.get one_held 1002 7 "").1
get-Fresh_example = get-Fresh 1002 one_held 7 ""
