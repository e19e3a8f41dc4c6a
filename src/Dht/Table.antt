-- ===== src/Dht/Table.antt =====
-- commonnet/dht/table.py: the Kademlia routing table, k-buckets with replacement caches.
-- The lists of buckets are functions of the index, below 256 for every position. Times are natural
-- numbers. The lock is not modelled: each method is one step.
pub mod Contacts
pub mod Bucket
pub mod Invariant
pub mod Reads
pub mod Nearest
pub mod Failures
pub mod Steps
mod Tests
use common_network.Prelude.{
  ℕ, zero, suc, ◌+◌, ◌-◌, ◌<◌, String, List, [], ◌∷◌, ◌++◌, length, take, drop, keep_if, Bool, true,
  false, not, ◌&&◌, if◌then◌else◌, ◌==◌, number_eq, text_eq, pair_eq, ltb, leb, Option, none, some,
}
use common_network.Prelude.Sort.{sort_by}
use common_network.Dht.Ids.{bucket_index, distance, id_bits}

pub record Contact : Type 0 where
  pub peer : String
  pub id : ℕ
  pub addr : String × ℕ
  pub last_seen : ℕ
  pub fails : ℕ

pub record RoutingTable : Type 0 where
  pub own : ℕ
  pub k : ℕ
  pub buckets : ℕ → List Contact
  pub cache : ℕ → List Contact
  pub touched : ℕ → ℕ

-- `xs[i] = v`
abbrev pub update {ℓ} : {A : Type ℓ} → (ℕ → A) → ℕ → A → ℕ → A
update f i v j = if i == j then v else f j

unfoldable pub init : ℕ → ℕ → RoutingTable
init own k = record { own = own; k = k; buckets = λ i. []; cache = λ i. []; touched = λ i. 0 }

unfoldable pub find_id : ℕ → List Contact → Option Contact
find_id i [] = none
find_id i (c ∷ cs) = if c.id == i then some c else find_id i cs

-- `del bucket[i]` at the first contact with this id
unfoldable pub drop_id : ℕ → List Contact → List Contact
drop_id i [] = []
drop_id i (c ∷ cs) = if c.id == i then cs else c ∷ drop_id i cs

-- `[c for c in cache if c.id != contact_id]`
unfoldable pub others : ℕ → List Contact → List Contact
others i = keep_if (λ c. not (c.id == i))

-- `del cache[:-k]`, which deletes nothing for k = 0
unfoldable pub keep_last : ℕ → List Contact → List Contact
keep_last k cs = if k == 0 then cs else drop (length cs - k) cs

-- `cache.pop()` with what stays
unfoldable pub pop_last : List Contact → Option (List Contact × Contact)
pop_last [] = none
pop_last (c ∷ cs) =
    let rest = pop_last cs in
    elim rest [ none ↦ some ([], c) | some (front, last) ↦ some (c ∷ front, last) ]

-- What `add` gives back: nothing, the contact to ping, or the `IndexError` of an empty full bucket.
pub data Added : Type 0 where
  kept : Added
  probe : Contact → Added
  index_error : Added

abbrev first_or_error : List Contact → Added
first_or_error [] = index_error
first_or_error (c ∷ cs) = probe c

-- `bucket_index` has no index only for the own id, which the methods test first.
module _ (t : RoutingTable) where
  unfoldable pub contacts_below : ℕ → List Contact
  contacts_below zero = []
  contacts_below (suc n) = contacts_below n ++ t.buckets n

  unfoldable pub contacts : List Contact
  unfolding contacts_below
  contacts = contacts_below id_bits

  unfoldable pub get : ℕ → Option Contact
  get i =
      if i == t.own
      then none
      else elim (bucket_index t.own i) [ none ↦ none | some idx ↦ find_id i (t.buckets idx) ]

  -- A member of the bucket moves to its end with the new address.
  unfoldable pub refresh : ℕ → Contact → Contact → ℕ → RoutingTable
  refresh idx c contact now = record t {
    buckets = update t.buckets idx (
        drop_id contact.id (t.buckets idx)
        ++ record c { addr = contact.addr; last_seen = now; fails = 0 } ∷ []);
    touched = update t.touched idx now;
  }

  unfoldable pub append : ℕ → Contact → ℕ → RoutingTable
  append idx contact now = record t {
    buckets = update t.buckets idx (t.buckets idx ++ contact ∷ []);
    touched = update t.touched idx now;
  }

  -- A full bucket: the contact goes to the replacement cache.
  unfoldable pub set_aside : ℕ → Contact → RoutingTable
  set_aside idx contact = record t {
    cache = update t.cache idx (keep_last t.k (others contact.id (t.cache idx) ++ contact ∷ []));
  }

  unfoldable pub add_at : ℕ → Contact → ℕ → RoutingTable × Added
  add_at idx contact now = elim (find_id contact.id (t.buckets idx)) [
    | some c ↦ (refresh idx c contact now, kept)
    | none ↦
        let seen = record contact { last_seen = now } in
        if ltb (length (t.buckets idx)) t.k
        then (append idx seen now, kept)
        else (set_aside idx seen, first_or_error (t.buckets idx))
  ]

  unfoldable pub add : Contact → ℕ → RoutingTable × Added
  add contact now =
      if contact.id == t.own then (t, kept) else elim (bucket_index t.own contact.id) [
        | none ↦ (t, kept)
        | some idx ↦ add_at idx contact now
      ]

  -- The newest replacement takes the place of a contact that is dropped.
  unfoldable pub promote : ℕ → List Contact → RoutingTable
  promote idx bucket = elim (pop_last (t.cache idx)) [
    | none ↦ record t { buckets = update t.buckets idx bucket }
    | some (front, last) ↦ record t {
      buckets = update t.buckets idx (bucket ++ last ∷ []);
      cache = update t.cache idx front;
    }
  ]

  unfoldable pub remove_at : ℕ → ℕ → RoutingTable
  remove_at idx i = elim (find_id i (t.buckets idx)) [
    | some c ↦ promote idx (drop_id i (t.buckets idx))
    | none ↦ record t { cache = update t.cache idx (others i (t.cache idx)) }
  ]

  unfoldable pub remove : ℕ → RoutingTable
  remove i =
      if i == t.own
      then t
      else elim (bucket_index t.own i) [ none ↦ t | some idx ↦ remove_at idx i ]

-- `c.fails += 1` on the contact that the bucket holds
unfoldable pub note_failure : ℕ → List Contact → List Contact
note_failure i [] = []
note_failure i (c ∷ cs) =
    if c.id == i then record c { fails = c.fails + 1 } ∷ cs else c ∷ note_failure i cs

unfoldable pub noted : RoutingTable → ℕ → RoutingTable
noted t i = elim (bucket_index t.own i) [
  | none ↦ t
  | some idx ↦ record t { buckets = update t.buckets idx (note_failure i (t.buckets idx)) }
]

unfoldable pub fail : RoutingTable → ℕ → ℕ → RoutingTable × Bool
fail t i limit = elim (get t i) [
  | none ↦ (t, false)
  | some c ↦
      let t' = noted t i in if leb limit (c.fails + 1) then (remove t' i, true) else (t', false)
]

abbrev pub nearer : ℕ → Contact → Contact → Bool
nearer target a b = leb (distance a.id target) (distance b.id target)

abbrev pub count_or_k : RoutingTable → Option ℕ → ℕ
count_or_k t none = t.k
count_or_k t (some n) = n

unfoldable pub closest : RoutingTable → ℕ → Option ℕ → List Contact
closest t target n = take (count_or_k t n) (sort_by (nearer target) (contacts t))

unfoldable pub by_addr_in : String × ℕ → List Contact → Option Contact
by_addr_in addr [] = none
by_addr_in addr (c ∷ cs) = if c.addr == addr then some c else by_addr_in addr cs

unfoldable pub by_addr : RoutingTable → String × ℕ → Option Contact
by_addr t addr = by_addr_in addr (contacts t)

-- `len(table)`
unfoldable pub size : RoutingTable → ℕ
size t = length (contacts t)

-- `now - touched > older_than` for the buckets below `n` that hold a contact
unfoldable pub stale_below : RoutingTable → ℕ → ℕ → ℕ → List ℕ
stale_below t now older_than zero = []
stale_below t now older_than (suc n) =
    let rest = stale_below t now older_than n in
    if ltb 0 (length (t.buckets n)) && ltb (t.touched n + older_than) now
    then rest ++ n ∷ []
    else rest

unfoldable pub stale_buckets : RoutingTable → ℕ → ℕ → List ℕ
stale_buckets t now older_than = stale_below t now older_than id_bits

unfoldable pub touch_bucket : RoutingTable → ℕ → ℕ → RoutingTable
touch_bucket t idx now = record t { touched = update t.touched idx now }
