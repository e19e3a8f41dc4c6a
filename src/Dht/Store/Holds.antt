-- ===== src/Dht/Store/Holds.antt =====
-- commonnet/dht/store.py: a record that `put` accepts is held afterwards.
use common_network.Prelude.{
  ℕ, ◌≡◌, ◌≢◌, refl, ap, ◌∙◌, String, [], ◌∷◌, length, none, some, Bool, false, ◌==◌, number_eq,
  text_eq, ltb, leb, arith, Bool-cases, Option-cases, inl, inr, equal_refl, All, All-keep_if,
  keep_if, map,
}
use common_network.Prelude.Dict.{Dict, lookup, insert, lookup-insert}
use common_network.Mesh.Records.{PeerRecord, older_than, live_seconds}
use common_network.Dht.Store
use common_network.Dht.Store.{
  Value, Bucket, ValueStore, StoreError, bucket_of, less, or_empty, text_gt, up_to,
}
use common_network.Prelude.Sort.{sort_by, All-sort_by}

some≢none : (x : StoreError) → some x ≢ none
some≢none x e = cc

bucket_of-insert : (key : ℕ) (b : Bucket) (d : Dict ℕ Bucket) → bucket_of key (insert key b d) ≡ b
unfolding or_empty
bucket_of-insert key b d = rw (lookup-insert key key b d, equal_refl key) refl

-- The store has under the key a record of the peer with this sequence number.
abbrev pub Holds : ValueStore → ℕ → PeerRecord → Type 0
Holds st key r =
    (held : PeerRecord) × (src : String) × (lookup r.peer (bucket_of key st.values)
      ≡ some (held, src))
    × (held.seq ≡ r.seq)

module _ (key : ℕ) (r : PeerRecord) (source : String) where
  keep_value-Holds : (st : ValueStore) → Holds (Store.keep_value st key r source) key r
  keep_value-Holds st = (
    r,
    source,
    ap (lookup r.peer)
          (bucket_of-insert key (insert r.peer (r, source) (bucket_of key st.values)) st.values)
        ∙ lookup-insert r.peer r.peer (r, source) (bucket_of key st.values)
        ∙ rw (equal_refl r.peer) refl,
    refl,
  )

  put_capped-Holds :
      (refused st : ValueStore)
      → (Store.put_capped refused st key r source).1 ≡ none
      → Holds (Store.put_capped refused st key r source).0 key r
  unfolding Store.put_capped
  put_capped-Holds refused st e = elim (Bool-cases (leb st.max_per_source (st.per_source source))) [
    | inl many ↦ absurd (some≢none _ (rw (many, Store.put_capped) at e))
    | inr few ↦ rw few (keep_value-Holds st)
  ]

  replace-Holds :
      (st : ValueStore) (held : PeerRecord) (src : String)
      → lookup r.peer (bucket_of key st.values) ≡ some (held, src)
      → (Store.replace st key r source (held, src)).1 ≡ none
      → Holds (Store.replace st key r source (held, src)).0 key r
  unfolding Store.replace
  replace-Holds st held src f e = elim (Bool-cases (ltb r.seq held.seq)) [
    | inl newer ↦ absurd (some≢none _ (rw (newer, Store.replace) at e))
    | inr older ↦ elim (Bool-cases (held.seq == r.seq)) [
      | inl same ↦ rw (older, same, Store.replace) (held, src, f, ground arith)
      | inr other ↦
          rw (older, other, Store.replace)
            (put_capped-Holds _ _ (rw (older, other, Store.replace) at e))
    ]
  ]

  put_at-Holds :
      (st : ValueStore)
      → (Store.put_at st key r source).1 ≡ none
      → Holds (Store.put_at st key r source).0 key r
  unfolding Store.put_at Store.put_new
  put_at-Holds st e = elim (Option-cases (lookup r.peer (bucket_of key st.values))) [
    | inr ((held, src), f) ↦
        rw (f, Store.put_at) (replace-Holds st held src f (rw (f, Store.put_at) at e))
    | inl f ↦ elim (Bool-cases (leb st.max_per_key (length (bucket_of key st.values)))) [
      | inl full ↦ absurd (some≢none _ (rw (f, full, Store.put_at, Store.put_new) at e))
      | inr room ↦
          rw (f, room, Store.put_at, Store.put_new)
            (put_capped-Holds st st (rw (f, room, Store.put_at, Store.put_new) at e))
    ]
  ]

module _ (verify_record : PeerRecord → Bool) (record_size : PeerRecord → ℕ)
    (network_key peer_key : String → ℕ) where
  -- After a `put` that is not refused the store holds, under that key, a record of that peer with the
  -- sequence number that was put.
  pub put-Holds :
      (st : ValueStore) (now key : ℕ) (r : PeerRecord) (source : String)
      → (Store.put verify_record record_size network_key peer_key st now key r source).1 ≡ none
      → Holds (Store.put verify_record record_size network_key peer_key st now key r source).0 key r
  unfolding Store.put
  put-Holds st now key r source e =
      elim (Option-cases
        (Store.check_record verify_record record_size network_key peer_key r key now)) [
          | inr (error, c) ↦ absurd (some≢none _ (rw (c, Store.put) at e))
          | inl c ↦
              rw (c, Store.put)
                (put_at-Holds key r source (Store.with_bucket (Store.prune st now) key)
                  (rw (c, Store.put) at e))
        ]

-- What `get` gives has not expired.
module _ (now : ℕ) where
  abbrev Fresh : Bucket → Type 0
  Fresh b = All (λ v. older_than live_seconds now v.1.0 ≡ false) b

  prune_bucket-Fresh :
      (b : Bucket) (counts : String → ℕ) → Fresh (Store.prune_bucket now b counts).0
  unfolding Store.prune_bucket
  prune_bucket-Fresh [] counts = tt
  prune_bucket-Fresh ((p, (r, src)) ∷ b) counts =
      elim (Bool-cases (older_than live_seconds now r)) [
        | inl old ↦ rw (old, Store.prune_bucket) (prune_bucket-Fresh b (less counts src))
        | inr young ↦ rw (young, Store.prune_bucket) (young, prune_bucket-Fresh b counts)
      ]

  prune_data-Fresh :
      (d : Dict ℕ Bucket) (counts : String → ℕ)
      → All (λ kb. Fresh kb.1) (Store.prune_data now d counts).0
  unfolding Store.prune_data
  prune_data-Fresh [] counts = tt
  prune_data-Fresh ((key, b) ∷ d) counts =
      let (b', counts') = Store.prune_bucket now b counts in
      let fresh = prune_bucket-Fresh b counts in
      let rest = prune_data-Fresh d counts' in
      elim (Bool-cases (length b' == 0)) [ inl e ↦ rw e rest | inr e ↦ rw e (fresh, rest) ]

  bucket_of-Fresh :
      (key : ℕ) (d : Dict ℕ Bucket) → All (λ kb. Fresh kb.1) d → Fresh (bucket_of key d)
  unfolding lookup or_empty
  bucket_of-Fresh key [] h = tt
  bucket_of-Fresh key ((k, b) ∷ d) h = elim (Bool-cases (k == key)) [
    | inl e ↦ rw e h.0
    | inr e ↦ rw e (bucket_of-Fresh key d h.1)
  ]

  records-Fresh :
      (b : Bucket) → Fresh b → All (λ r. older_than live_seconds now r ≡ false) (map (λ v. v.1.0) b)
  records-Fresh [] h = tt
  records-Fresh (v ∷ b) h = (h.0, records-Fresh b h.1)

  -- No record that `get` gives is older than the lifetime of a record.
  pub get-Fresh :
      (st : ValueStore) (key : ℕ) (after : String)
      → All (λ r. older_than live_seconds now r ≡ false) (Store.get st now key after).1
  unfolding Store.get Store.prune
  get-Fresh st key after =
      let b = bucket_of key (Store.prune st now).values in
      records-Fresh (keep_if (λ v. text_gt v.0 after) (sort_by up_to b)) (
        All-keep_if _ (λ v. text_gt v.0 after) (sort_by up_to b)
          (All-sort_by up_to _ b
            (bucket_of-Fresh key _ (prune_data-Fresh st.values st.per_source))))
