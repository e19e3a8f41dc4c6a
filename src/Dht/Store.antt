-- ===== src/Dht/Store.antt =====
-- commonnet/dht/store.py: the records that one node of the DHT holds for others, capped and expiring.
-- Keys are numbers (`key_int`), times are natural numbers, and the clock is an argument. The counter
-- answers 0 for a source that it does not have, so it is a function and dropping counts of 0 does
-- nothing to it. The lock is not modelled: each method is one step.
pub mod Counts
pub mod Bounds
pub mod Puts
pub mod Holds
mod Tests
use Prim.Native.Nat.{lt, eq, gt}
use Prim.Native.String.{compare}
use common_network.Prelude.{
  ℕ, ◌+◌, ◌-◌, String, List, [], ◌∷◌, length, Option, none, some, Bool, true, false, not, ◌&&◌,
  ◌||◌, ◌==◌, number_eq, text_eq, ltb, leb, if◌then◌else◌, keep_if, map,
}
use common_network.Prelude.Dict.{Dict, lookup, insert}
use common_network.Prelude.Sort.{sort_by}
use common_network.Mesh.Records.{PeerRecord, older_than, from_future, live_seconds}

-- The reasons of a `StoreError`. Records are typed here, so that one that is no object and one that is
-- no JSON do not arise.
pub data StoreError : Type 0 where
  too_large : StoreError
  bad_signature : StoreError
  wrong_key : StoreError
  stale : StoreError
  in_future : StoreError
  older : StoreError
  key_full : StoreError
  too_many : StoreError

abbrev pub max_record_bytes : ℕ
max_record_bytes = 800

-- A record and the address it came from.
abbrev pub Value : Type 0
Value = PeerRecord × String

abbrev pub Bucket : Type 0
Bucket = Dict String Value

pub record ValueStore : Type 0 where
  pub max_per_key : ℕ
  pub max_per_source : ℕ
  pub values : Dict ℕ Bucket
  pub per_source : String → ℕ

unfoldable pub init : ℕ → ℕ → ValueStore
init max_per_key max_per_source = record {
  max_per_key = max_per_key;
  max_per_source = max_per_source;
  values = [];
  per_source = λ s. 0;
}

-- `per_source[src] += 1`
abbrev pub more : (String → ℕ) → String → String → ℕ
more counts src s = if src == s then counts s + 1 else counts s

-- `per_source[src] -= 1`, which is never done at 0
abbrev pub less : (String → ℕ) → String → String → ℕ
less counts src s = if src == s then counts s - 1 else counts s

-- The values of one bucket that have not expired, and the counts without the others.
unfoldable pub prune_bucket : ℕ → Bucket → (String → ℕ) → Bucket × (String → ℕ)
prune_bucket now [] counts = ([], counts)
prune_bucket now ((peer, (r, src)) ∷ b) counts =
    let gone = prune_bucket now b (less counts src) in
    let (rest, counts') = prune_bucket now b counts in
    if older_than live_seconds now r then gone else ((peer, (r, src)) ∷ rest, counts')

-- A bucket that is empty goes, too.
unfoldable pub prune_data : ℕ → Dict ℕ Bucket → (String → ℕ) → Dict ℕ Bucket × (String → ℕ)
prune_data now [] counts = ([], counts)
prune_data now ((key, b) ∷ d) counts =
    let (b', counts') = prune_bucket now b counts in
    let (d', counts'') = prune_data now d counts' in
    (if length b' == 0 then d' else (key, b') ∷ d', counts'')

unfoldable pub prune : ValueStore → ℕ → ValueStore
prune st now =
    let (values, counts) = prune_data now st.values st.per_source in
    record st { values = values; per_source = counts }

unfoldable pub or_empty : Option Bucket → Bucket
or_empty none = []
or_empty (some b) = b

abbrev pub bucket_of : ℕ → Dict ℕ Bucket → Bucket
bucket_of key d = or_empty (lookup key d)

-- `data.setdefault(key, {})`
abbrev pub with_bucket : ValueStore → ℕ → ValueStore
with_bucket st key = record st { values = insert key (bucket_of key st.values) st.values }

-- `bucket[record["peer"]] = (record, source)` and the count of the source
abbrev pub keep_value : ValueStore → ℕ → PeerRecord → String → ValueStore
keep_value st key r source = record st {
  values = insert key (insert r.peer (r, source) (bucket_of key st.values)) st.values;
  per_source = more st.per_source source;
}

-- The check of the source's cap, and what follows it.
unfoldable pub put_capped :
    ValueStore → ValueStore → ℕ → PeerRecord → String → ValueStore × Option StoreError
put_capped refused st key r source =
    if leb st.max_per_source (st.per_source source)
    then (refused, some too_many)
    else (keep_value st key r source, none)

-- Where the bucket has a value of this peer, and where it has none.
unfoldable pub replace :
    ValueStore → ℕ → PeerRecord → String → Value → ValueStore × Option StoreError
replace st key r source (held, src) =
    if ltb r.seq held.seq
    then (st, some older)
    else if held.seq == r.seq
    then (st, none)
    else put_capped (record st { per_source = more (less st.per_source src) src })
        (record st { per_source = less st.per_source src }) key r source

unfoldable pub put_new : ValueStore → ℕ → PeerRecord → String → ValueStore × Option StoreError
put_new st key r source =
    if leb st.max_per_key (length (bucket_of key st.values))
    then (st, some key_full)
    else put_capped st st key r source

-- What `put` does once the record is acceptable and the store is pruned.
unfoldable pub put_at : ValueStore → ℕ → PeerRecord → String → ValueStore × Option StoreError
put_at st key r source = elim (lookup r.peer (bucket_of key st.values)) [
  | none ↦ put_new st key r source
  | some old ↦ replace st key r source old
]

module _ (verify_record : PeerRecord → Bool) (record_size : PeerRecord → ℕ)
    (network_key peer_key : String → ℕ) where
  unfoldable pub check_record : PeerRecord → ℕ → ℕ → Option StoreError
  check_record r key now =
      if ltb max_record_bytes (record_size r)
      then some too_large
      else if not (verify_record r)
      then some bad_signature
      else if not (key == network_key r.network || key == peer_key r.peer)
      then some wrong_key
      else if older_than live_seconds now r
      then some stale
      else if from_future now r
      then some in_future
      else none

  -- `none` is the `True` that `put` returns.
  unfoldable pub put : ValueStore → ℕ → ℕ → PeerRecord → String → ValueStore × Option StoreError
  put st now key r source = elim (check_record r key now) [
    | some e ↦ (st, some e)
    | none ↦ put_at (with_bucket (prune st now) key) key r source
  ]

-- `a > b` of two texts
unfoldable pub text_gt : String → String → Bool
text_gt a b = elim (compare a b) [ lt ↦ false | eq ↦ false | gt ↦ true ]

abbrev pub up_to : String × Value → String × Value → Bool
up_to a b = not (text_gt a.0 b.0)

-- The live records under a key by peer id, from behind `after`.
unfoldable pub get : ValueStore → ℕ → ℕ → String → ValueStore × List PeerRecord
get st now key after =
    let st' = prune st now in
    (
      st',
      map (λ v. v.1.0)
          (keep_if (λ v. text_gt v.0 after) (sort_by up_to (bucket_of key st'.values))),
    )

unfoldable pub count_in : Dict ℕ Bucket → ℕ
count_in [] = 0
count_in ((key, b) ∷ d) = length b + count_in d

unfoldable pub count : ValueStore → ℕ
count st = count_in st.values
