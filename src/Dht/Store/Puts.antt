-- ===== src/Dht/Store/Puts.antt =====
-- commonnet/dht/store.py: `put` keeps the counts of the sources and both caps.
use common_network.Prelude.{
  ℕ, ◌+◌, ◌≤◌, ◌<◌, ◌≡◌, sym, ap, ◌∙◌, String, [], ◌∷◌, length, none, some, Bool, ◌==◌, number_eq,
  text_eq, ltb, leb, arith, Bool-cases, Option-cases, inl, inr, All, leb→gt,
}
use common_network.Prelude.Dict.{Dict, lookup, insert, length-insert-none, length-insert-some}
use common_network.Mesh.Records.{PeerRecord}
use common_network.Dht.Store
use common_network.Dht.Store.{
  Value, Bucket, ValueStore, StoreError, bucket_of, more, less, or_empty,
}
use common_network.Dht.Store.Counts.{from, held_from, held_from-insert, one_from, from-insert}
use common_network.Dht.Store.Bounds.{
  IsValid, prune-IsValid, with_bucket-IsValid, per_key-insert, per_key-bucket_of,
}

one_from-le : (s p : String) (b : Bucket) → one_from s (lookup p b) ≤ from s b
unfolding one_from lookup from
one_from-le s p [] = omega arith
one_from-le s p ((q, (r, src)) ∷ b) = elim (Bool-cases (q == p)) [
  | inl e ↦ rw e (ground arith)
  | inr e ↦ rw e (ground (arith, one_from-le s p b))
]

from-bucket_of :
    (s : String) (key : ℕ) (d : Dict ℕ Bucket) → from s (bucket_of key d) ≤ held_from s d
unfolding from held_from lookup or_empty
from-bucket_of s key [] = omega arith
from-bucket_of s key ((k, b) ∷ d) = ground (arith, from-bucket_of s key d)

module _ (st : ValueStore) (key : ℕ) (r : PeerRecord) (source : String) where
  -- A value is kept where the counts are right but for the value that it replaces.
  keep_value-IsValid :
      ((s : String)
        → held_from s st.values
          ≡ st.per_source s + one_from s (lookup r.peer (bucket_of key st.values)))
      → ((s : String) → st.per_source s ≤ st.max_per_source)
      → st.per_source source < st.max_per_source
      → All (λ kb. length kb.1 ≤ st.max_per_key) st.values
      → length (insert r.peer (r, source) (bucket_of key st.values)) ≤ st.max_per_key
      → IsValid (Store.keep_value st key r source)
  unfolding one_from
  keep_value-IsValid counted within room per_key le =
      let b = bucket_of key st.values in
      record {
        counted = λ s. ground (
          arith,
          counted s,
          held_from-insert s key (insert r.peer (r, source) b) st.values,
          from-insert s r.peer r source b,
        );
        per_source_within = λ s. ground (arith, within s, text_eq.agrees source s);
        per_key_within = per_key-insert st.max_per_key key _ st.values le per_key;
      }

  put_new-IsValid :
      IsValid st
      → lookup r.peer (bucket_of key st.values) ≡ none
      → IsValid (Store.put_new st key r source).0
  unfolding Store.put_new Store.put_capped one_from
  put_new-IsValid v e = elim (Bool-cases (leb st.max_per_key (length (bucket_of key st.values)))) [
    | inl full ↦ rw full v
    | inr room ↦ rw room (elim (Bool-cases (leb st.max_per_source (st.per_source source))) [
      | inl many ↦ rw many v
      | inr few ↦ rw few (
          keep_value-IsValid (λ s. rw e (omega (arith, v.counted s))) v.per_source_within
            (ground arith) v.per_key_within
            (omega (
              arith,
              length-insert-none r.peer (r, source) (bucket_of key st.values) e,
              leb→gt st.max_per_key _ room,
            )))
    ])
  ]

  -- The value that is replaced is one of those that its source's count holds.
  counts_old :
      IsValid st
      → (held : PeerRecord) (src : String)
      → lookup r.peer (bucket_of key st.values) ≡ some (held, src)
      → (s : String)
      → (st.per_source s ≡ less st.per_source src s + one_from s (some (held, src)))
        × (more (less st.per_source src) src s ≡ st.per_source s)
        × (less st.per_source src s ≤ st.per_source s)
  unfolding one_from
  counts_old v held src e s =
      let at_key = from-bucket_of s key st.values in
      let one = one_from-le s r.peer (bucket_of key st.values) in
      let of_old = ap (one_from s) e in ground (arith, v.counted s)

put_capped-IsValid :
    (refused st : ValueStore) (key : ℕ) (r : PeerRecord) (source : String)
    → IsValid refused
    → (st.per_source source < st.max_per_source → IsValid (Store.keep_value st key r source))
    → IsValid (Store.put_capped refused st key r source).0
unfolding Store.put_capped
put_capped-IsValid refused st key r source v kept =
    elim (Bool-cases (leb st.max_per_source (st.per_source source))) [
      | inl many ↦ rw many v
      | inr few ↦ rw few (kept (ground arith))
    ]

module _ {st : ValueStore} (v : IsValid st) (key : ℕ) (r : PeerRecord) (source : String) where
  restored-IsValid :
      (counts : String → ℕ)
      → ((s : String) → counts s ≡ st.per_source s)
      → IsValid (record st { per_source = counts })
  restored-IsValid counts same = record {
    counted = λ s. v.counted s ∙ sym (same s);
    per_source_within = λ s. omega (arith, same s, v.per_source_within s);
    per_key_within = v.per_key_within;
  }

  replace-IsValid :
      (held : PeerRecord) (src : String)
      → lookup r.peer (bucket_of key st.values) ≡ some (held, src)
      → IsValid (Store.replace st key r source (held, src)).0
  unfolding Store.replace Store.put_capped
  replace-IsValid held src e =
      let old = counts_old st key r source v held src e in
      let freed = record st { per_source = less st.per_source src } in
      let len = length-insert-some r.peer (r, source) (held, src) (bucket_of key st.values) e in
      elim (Bool-cases (ltb r.seq held.seq)) [
        | inl newer ↦ rw newer v
        | inr older ↦ elim (Bool-cases (held.seq == r.seq)) [
          | inl same ↦ rw (older, same, Store.replace) v
          | inr different ↦
              rw (older, different, Store.replace)
                (put_capped-IsValid _ freed key r source (restored-IsValid _ (λ s. (old s).1))
                  (λ few.
                    keep_value-IsValid freed key r source
                      (λ s.
                        v.counted s
                        ∙ (old s).0
                        ∙ ap (λ o. less st.per_source src s + one_from s o) (sym e))
                      (λ s. omega (arith, (old s).2, v.per_source_within s)) few v.per_key_within
                      (omega
                        (arith, per_key-bucket_of st.max_per_key key st.values v.per_key_within))))
        ]
      ]

  put_at-IsValid : IsValid (Store.put_at st key r source).0
  unfolding Store.put_at
  put_at-IsValid = elim (Option-cases (lookup r.peer (bucket_of key st.values))) [
    | inl n ↦ rw (n, Store.put_at) (put_new-IsValid st key r source v n)
    | inr ((held, src), e) ↦ rw (e, Store.put_at) (replace-IsValid held src e)
  ]

module _ (verify_record : PeerRecord → Bool) (record_size : PeerRecord → ℕ)
    (network_key peer_key : String → ℕ) where
  -- Whatever record `put` is given, accepted or refused, a valid store stays valid: the count of
  -- each source is the number of its values that are held, and neither a source nor a key has more
  -- than it may.
  pub put-IsValid :
      {st : ValueStore}
      → IsValid st
      → (now key : ℕ) (r : PeerRecord) (source : String)
      → IsValid (Store.put verify_record record_size network_key peer_key st now key r source).0
  unfolding Store.put
  put-IsValid {st} v now key r source =
      elim (Option-cases
        (Store.check_record verify_record record_size network_key peer_key r key now)) [
          | inr (error, e) ↦ rw (e, Store.put) v
          | inl e ↦
              rw (e, Store.put)
                (put_at-IsValid (with_bucket-IsValid (prune-IsValid v now) key) key r source)
        ]
