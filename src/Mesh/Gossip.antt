-- ===== src/Mesh/Gossip.antt =====
-- commonnet/mesh/gossip.py: the newest record of each peer, merged from neighbours and handed on.
-- The clock is an argument; in `merge_many` it is a function of the place in the list, since each
-- record is merged at its own time. The lock is not modelled: each method is one step.
pub mod Merge
pub mod Newest
pub mod Export
mod Tests
use common_network.Prelude.{
  ℕ, zero, suc, ◌+◌, String, List, [], ◌∷◌, Option, none, some, Bool, true, false, ◌&&◌, ◌||◌, not,
  map, ◌==◌, text_eq, ltb, leb, if◌then◌else◌, keep_if, take,
}
use common_network.Prelude.Dict.{Dict, lookup, insert}
use common_network.Prelude.Sort.{sort_by}
use common_network.Mesh.Records.{PeerRecord, older_than, from_future, is_live, live_seconds}

abbrev pub max_records : ℕ
max_records = 1000

abbrev pub tombstone_seconds : ℕ
tombstone_seconds = 300

abbrev pub forget_seconds : ℕ
forget_seconds = 600

pub record PeerTable : Type 0 where
  pub network : String
  pub records : Dict String PeerRecord

abbrev values : Dict String PeerRecord → List PeerRecord
values = map (λ kv. kv.1)

abbrev pub store : PeerTable → PeerRecord → PeerTable
store t r = record t { records = insert r.peer r t.records }

module _ (verify_record : PeerRecord → Bool) where
  -- Genuine, for this network, and of an acceptable time.
  unfoldable pub welcome : String → ℕ → PeerRecord → Bool
  welcome network now r =
      verify_record r
      && r.network == network
      && not (from_future now r || older_than forget_seconds now r)

  unfoldable pub merge : PeerTable → ℕ → PeerRecord → PeerTable × Bool
  merge t now r =
      if not (welcome t.network now r) then (t, false) else elim (lookup r.peer t.records) [
        | none ↦ (store t r, true)
        | some held ↦ if leb r.seq held.seq then (t, false) else (store t r, true)
      ]

  -- `sum(1 for r in records if self.merge(r))`, the first of them at the time `now i`
  unfoldable pub merge_all : PeerTable → (ℕ → ℕ) → ℕ → List PeerRecord → PeerTable × ℕ
  merge_all t now i [] = (t, 0)
  merge_all t now i (r ∷ rs) =
      let (t', new) = merge t (now i) r in
      let (t'', count) = merge_all t' now (suc i) rs in (t'', if new then suc count else count)

  unfoldable pub merge_many : PeerTable → (ℕ → ℕ) → List PeerRecord → PeerTable × ℕ
  merge_many t now records = merge_all t now 0 (take max_records records)

unfoldable pub get : PeerTable → String → Option PeerRecord
get t peer = lookup peer t.records

unfoldable pub live : PeerTable → ℕ → List PeerRecord
live t now = keep_if (λ r. is_live r now t.network) (values t.records)

-- Fresh records in any state but leaving, and recent tombstones.
unfoldable pub worth_sending : ℕ → PeerRecord → Bool
worth_sending now r =
    (not (r.state == "leaving") && not (older_than live_seconds now r))
    || (r.state == "leaving" && not (older_than tombstone_seconds now r))

unfoldable pub forget : PeerTable → ℕ → PeerTable
forget t now = record t {
  records = keep_if (λ kv. not (older_than forget_seconds now kv.1)) t.records;
}

abbrev pub newer : PeerRecord → PeerRecord → Bool
newer a b = leb b.ts a.ts

-- What a neighbour is handed, newest first; the table forgets what is too old.
unfoldable pub export : PeerTable → ℕ → ℕ → PeerTable × List PeerRecord
export t now limit =
    let t' = forget t now in
    (t', take limit (sort_by newer (keep_if (worth_sending now) (values t'.records))))

module _ (verify_record : PeerRecord → Bool) where
  -- POST /gossip: take the sender's records, where the body has a list of them, and answer with ours.
  unfoldable pub handle_gossip :
      PeerTable → (ℕ → ℕ) → ℕ → Option (List PeerRecord) → PeerTable × List PeerRecord
  handle_gossip t clock now none = export t now 200
  handle_gossip t clock now (some sent) = export (merge_many verify_record t clock sent).0 now 200

  -- Our records go to a neighbour that answers with its own: both tables, and how many were new to us.
  unfoldable pub exchange : PeerTable → PeerTable → ℕ → (PeerTable × PeerTable) × ℕ
  exchange ours theirs now =
      let (ours', sent) = export ours now 200 in
      let (theirs', reply) = handle_gossip theirs (λ i. now) now (some sent) in
      let (ours'', new) = merge_many verify_record ours' (λ i. now) reply in
      ((ours'', theirs'), new)

-- GET /peers
unfoldable pub peers_body : PeerTable → ℕ → PeerTable × List PeerRecord
peers_body t now = export t now 200
