-- ===== src/Dht/Table/Tests.antt =====
-- Runs of the routing table on small positions, and the theorems at those inputs.
use common_network.Prelude.{ℕ, ◌+◌, ◌≤◌, ◌<◌, ◌≡◌, ◌^◌, refl, some, arith, number_eq}
use common_network.Dht.Ids.{bucket_index, distance, id_bits}
use common_network.Dht.Ids.Range.{bucket_index-distance}
use common_network.Dht.Table
use common_network.Dht.Table.{Contact, RoutingTable, kept, probe}
use common_network.Dht.Table.Invariant.{IsValid, init-IsValid, add-IsValid}
use common_network.Dht.Table.Steps.{Reachable, Reachable-IsValid, new, next, adds, removes, fails}
use common_network.Dht.Table.Reads.{Found, get-add}
use common_network.Dht.Table.Nearest.{IsNearest, closest-IsNearest}

abbrev peer_at : ℕ → Contact
peer_at i = record {
  peer = "peer";
  id = i;
  addr = ("10.0.0.1", 9000 + i);
  last_seen = 0;
  fails = 0;
}

-- Room for one contact a bucket; ids 2 and 3 share the bucket 1.
abbrev empty_table : RoutingTable
empty_table = Table.init 0 1

abbrev one_contact : RoutingTable
one_contact = (Table.add empty_table (peer_at 2) 5).0

abbrev one_aside : RoutingTable
one_aside = (Table.add one_contact (peer_at 3) 6).0

empty-IsValid : IsValid empty_table
empty-IsValid = init-IsValid 0 1 (omega arith)

one_contact-IsValid : IsValid one_contact
one_contact-IsValid = add-IsValid empty-IsValid (peer_at 2) 5

one_aside-IsValid : IsValid one_aside
one_aside-IsValid = add-IsValid one_contact-IsValid (peer_at 3) 6

bucket_of_3 : bucket_index 0 3 ≡ some 1
unfolding bucket_index
bucket_of_3 = refl

full_bucket : (Table.add one_contact (peer_at 3) 6).1 ≡ probe (record (peer_at 2) { last_seen = 5 })
unfolding Table.add Table.init bucket_index Table.add_at Table.find_id Table.append
full_bucket = refl

promoted : Table.get (Table.remove one_aside 2) 3 ≡ some (record (peer_at 3) { last_seen = 6 })
unfolding Table.get Table.remove Table.set_aside Table.remove_at Table.promote Table.pop_last
    Table.keep_last Table.others Table.drop_id Table.add Table.init bucket_index Table.add_at
    Table.find_id Table.append
promoted = refl

bucket_index-distance_example :
    (i : ℕ) × (bucket_index 5 12 ≡ some i)
    × (i < id_bits)
    × (2 ^ i ≤ distance 5 12)
    × (distance 5 12 < 2 ^ (i + 1))
bucket_index-distance_example = bucket_index-distance 5 12 (omega arith) (omega arith) (omega arith)

two_moved : Reachable 0 1 (Table.fail (Table.remove one_aside 2) 3 1).0
two_moved =
    next
      (next (next (next new (adds empty_table (peer_at 2) 5)) (adds one_contact (peer_at 3) 6))
        (removes one_aside 2))
      (fails (Table.remove one_aside 2) 3 1)

Reachable-IsValid_example : IsValid (Table.fail (Table.remove one_aside 2) 3 1).0
Reachable-IsValid_example =
    Reachable-IsValid 0 1 (Table.fail (Table.remove one_aside 2) 3 1).0 (omega arith) two_moved

get-add_example : Found empty_table (peer_at 2) 5 (Table.add empty_table (peer_at 2) 5).0
unfolding Table.add Table.init bucket_index Table.add_at Table.find_id Table.append
get-add_example = get-add empty-IsValid (peer_at 2) 5 1 (omega arith) refl refl

abbrev seen_2 : Contact
seen_2 = record (peer_at 2) { last_seen = 5 }

closest-IsNearest_example : IsNearest one_contact 9 (some 3) (Table.closest one_contact 9 (some 3))
closest-IsNearest_example = closest-IsNearest one_contact 9 (some 3)
