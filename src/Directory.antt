-- ===== src/Directory.antt =====
-- gateway/app/directory.py: the rendezvous that stores announced records and lists the live ones.
-- Times are natural numbers. The address of the caller, the parsed body and the reason that `verify`
-- gives are arguments of `announce`; the lock and the dashboard are not modelled.
pub mod Caps
pub mod Listing
mod Tests
use common_network.Prelude.{
  ℕ, zero, suc, ◌+◌, String, List, [], ◌∷◌, ◌++◌, length, Option, none, some, Bool, true, false,
  not, ◌&&◌, ◌||◌, ◌==◌, number_eq, text_eq, pair_eq, ltb, leb, if◌then◌else◌, keep_if, count_if,
  map, take,
}
use common_network.Prelude.Dict.{Dict, lookup, insert}
use common_network.Prelude.Sort.{sort_by}
use common_network.Mesh.Records.{PeerRecord, older_than, from_future, live_seconds}

abbrev pub ttl : ℕ
ttl = 90

abbrev pub max_body : ℕ
max_body = 4096

abbrev pub max_per_network : ℕ
max_per_network = 200

abbrev pub max_per_source : ℕ
max_per_source = 200

abbrev pub max_total : ℕ
max_total = 5000

abbrev pub max_list : ℕ
max_list = 100

abbrev pub announce_per_min : ℕ
announce_per_min = 30

abbrev pub Key : Type 0
Key = String × String

-- A stored record with the time and the address of its arrival.
pub record Entry : Type 0 where
  pub rec : PeerRecord
  pub at : ℕ
  pub src : String

pub record Directory : Type 0 where
  pub records : Dict Key Entry
  pub hits : Dict Key (List ℕ)

pub data Answer : Type 0 where
  no_caller : Answer
  slow_down : Answer
  too_large : Answer
  not_json : Answer
  refused : String → Answer
  not_live : Answer
  directory_full : Answer
  network_full : Answer
  source_full : Answer
  stale : Answer
  stored : Answer

-- `v[-1]` of a list that is not empty
abbrev last_or : ℕ → List ℕ → ℕ
last_or t [] = t
last_or t (x ∷ xs) = last_or x xs

-- `not v or now - v[-1] > 60`
unfoldable pub idle : ℕ → List ℕ → Bool
idle now [] = true
idle now (t ∷ ts) = ltb (last_or t ts + 60) now

abbrev pub recent : ℕ → List ℕ → List ℕ
recent now = keep_if (λ t. ltb now (t + 60))

abbrev pub times_or_empty : Option (List ℕ) → List ℕ
times_or_empty none = []
times_or_empty (some ts) = ts

-- Keys without a recent hit are dropped once there are many.
unfoldable pub clean : ℕ → Dict Key (List ℕ) → Dict Key (List ℕ)
clean now hits = if ltb 20000 (length hits) then keep_if (λ kv. not (idle now kv.1)) hits else hits

unfoldable pub limited : Directory → Key → ℕ → ℕ → Directory × Bool
limited st who limit now =
    let hits = clean now st.hits in
    let seen = recent now (times_or_empty (lookup who hits)) in
    if leb limit (length seen)
    then (record st { hits = insert who seen hits }, true)
    else (record st { hits = insert who (seen ++ now ∷ []) hits }, false)

unfoldable pub expire : Directory → ℕ → Directory
expire st now = record st { records = keep_if (λ kv. not (ltb (kv.1.at + ttl) now)) st.records }

unfoldable pub is_live : PeerRecord → ℕ → Bool
is_live r now = r.state == "up" && not (older_than live_seconds now r) && not (from_future now r)

abbrev pub store : Directory → Key → Entry → Directory
store st key e = record st { records = insert key e st.records }

-- The three caps, for a key that the directory does not have.
unfoldable pub store_new : Directory → Key → Entry → Directory × Answer
store_new st key e =
    if leb max_total (length st.records)
    then (st, directory_full)
    else if leb max_per_network (count_if (λ kv. kv.0.0 == key.0) st.records)
    then (st, network_full)
    else if leb max_per_source (count_if (λ kv. kv.1.src == e.src) st.records)
    then (st, source_full)
    else (store st key e, stored)

unfoldable pub store_record : Directory → ℕ → PeerRecord → String → Directory × Answer
store_record st now r ip =
    let key : Key = (r.network, r.peer) in
    let e : Entry = record { rec = r; at = now; src = ip } in
    elim (lookup key st.records) [
      | none ↦ store_new st key e
      | some old ↦ if ltb r.seq old.rec.seq then (st, stale) else (store st key e, stored)
    ]

-- What follows the checks of the body's size and form.
unfoldable pub take_record :
    Directory → ℕ → String → PeerRecord → Option String → Directory × Answer
take_record st now ip r (some why) = (st, refused why)
take_record st now ip r none =
    if not (is_live r now) then (st, not_live) else store_record (expire st now) now r ip

abbrev pub of_body :
    Directory → ℕ → String → Option PeerRecord → (PeerRecord → Option String) → Directory × Answer
of_body st now ip none verify = (st, not_json)
of_body st now ip (some r) verify = take_record st now ip r (verify r)

unfoldable pub announce :
    Directory
    → ℕ
    → Option String
    → ℕ
    → Option PeerRecord
    → (PeerRecord → Option String)
    → Directory × Answer
announce st now none body_bytes body verify = (st, no_caller)
announce st now (some ip) body_bytes body verify =
    let (st', slow) = limited st ("announce", ip) announce_per_min now in
    if slow
    then (st', slow_down)
    else if ltb max_body body_bytes
    then (st', too_large)
    else of_body st' now ip body verify

-- The live records of one network.
abbrev pub live_of : Directory → ℕ → String → List PeerRecord
live_of st now network =
    map (λ kv. kv.1.rec) (keep_if (λ kv. kv.0.0 == network && is_live kv.1.rec now) st.records)

-- GET /directory
unfoldable pub directory : Directory → ℕ → String → Directory × List PeerRecord
directory st now network =
    let st' = expire st now in
    (st', take max_list (sort_by (λ a b. leb b.ts a.ts) (live_of st' now network)))
