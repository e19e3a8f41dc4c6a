-- ===== src/Dht/Store/Bounds.antt =====
-- commonnet/dht/store.py: the caps of a key and of a source hold of a new store and of a pruned one.
use common_network.Prelude.{
  ℕ, ◌≤◌, ◌≡◌, refl, String, [], ◌∷◌, length, ◌==◌, number_eq, text_eq, arith, Bool-cases, inl, inr,
  All,
}
use common_network.Prelude.Dict.{Dict, lookup, insert}
use common_network.Dht.Store
use common_network.Dht.Store.{
  Value, Bucket, ValueStore, StoreError, bucket_of, more, less, or_empty,
}
use common_network.Dht.Store.Counts.{held_from, held_from-insert, prune_data-from}

-- The counts are those of the values that are held, no source and no key has more values than it may.
pub record IsValid (st : ValueStore) : Type 0 where
  pub counted : (s : String) → held_from s st.values ≡ st.per_source s
  pub per_source_within : (s : String) → st.per_source s ≤ st.max_per_source
  pub per_key_within : All (λ kb. length kb.1 ≤ st.max_per_key) st.values

pub init-IsValid :
    (max_per_key max_per_source : ℕ) → IsValid (Store.init max_per_key max_per_source)
unfolding Store.init held_from
init-IsValid k n = record {
  counted = λ s. refl;
  per_source_within = λ s. omega arith;
  per_key_within = tt;
}

length-prune_bucket :
    (now : ℕ) (b : Bucket) (counts : String → ℕ)
    → length (Store.prune_bucket now b counts).0 ≤ length b
unfolding Store.prune_bucket
length-prune_bucket now [] counts = omega arith
length-prune_bucket now ((p, (r, src)) ∷ b) counts =
    ground (arith, length-prune_bucket now b counts, length-prune_bucket now b (less counts src))

per_key-prune_data :
    (n now : ℕ) (d : Dict ℕ Bucket) (counts : String → ℕ)
    → All (λ kb. length kb.1 ≤ n) d
    → All (λ kb. length kb.1 ≤ n) (Store.prune_data now d counts).0
unfolding Store.prune_data
per_key-prune_data n now [] counts h = tt
per_key-prune_data n now ((key, b) ∷ d) counts h =
    let (b', counts') = Store.prune_bucket now b counts in
    let rest = per_key-prune_data n now d counts' h.1 in
    let within : length b' ≤ n = omega (arith, length-prune_bucket now b counts, h.0) in
    elim (Bool-cases (length b' == 0)) [ inl e ↦ rw e rest | inr e ↦ rw e (within, rest) ]

-- Pruning keeps a valid store valid.
pub prune-IsValid : {st : ValueStore} → IsValid st → (now : ℕ) → IsValid (Store.prune st now)
unfolding Store.prune
prune-IsValid {st} v now =
    let counts =
      prune_data-from now st.values st.per_source (λ s. 0) (λ s. omega (arith, v.counted s)) in
    record {
      counted = λ s. omega (arith, counts s);
      per_source_within = λ s. omega (arith, counts s, v.per_source_within s);
      per_key_within =
          per_key-prune_data st.max_per_key now st.values st.per_source v.per_key_within;
    }

pub per_key-insert :
    (n key : ℕ) (b : Bucket) (d : Dict ℕ Bucket)
    → length b ≤ n
    → All (λ kb. length kb.1 ≤ n) d
    → All (λ kb. length kb.1 ≤ n) (insert key b d)
unfolding insert
per_key-insert n key b [] le h = (le, tt)
per_key-insert n key b ((k, c) ∷ d) le h = elim (Bool-cases (k == key)) [
  | inl e ↦ rw e (le, h.1)
  | inr e ↦ rw e (h.0, per_key-insert n key b d le h.1)
]

pub per_key-bucket_of :
    (n key : ℕ) (d : Dict ℕ Bucket) → All (λ kb. length kb.1 ≤ n) d → length (bucket_of key d) ≤ n
unfolding lookup or_empty
per_key-bucket_of n key [] h = omega arith
per_key-bucket_of n key ((k, b) ∷ d) h = ground (arith, per_key-bucket_of n key d h.1)

-- The bucket that `setdefault` makes changes nothing that is counted.
pub with_bucket-IsValid :
    {st : ValueStore} → IsValid st → (key : ℕ) → IsValid (Store.with_bucket st key)
with_bucket-IsValid {st} v key = record {
  counted =
      λ s. omega (arith, held_from-insert s key (bucket_of key st.values) st.values, v.counted s);
  per_source_within = v.per_source_within;
  per_key_within =
      per_key-insert st.max_per_key key (bucket_of key st.values) st.values
        (per_key-bucket_of st.max_per_key key st.values v.per_key_within) v.per_key_within;
}
