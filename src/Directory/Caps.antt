-- ===== src/Directory/Caps.antt =====
-- gateway/app/directory.py: the caps on what the directory holds.
use common_network.Prelude.{
  ℕ, ◌+◌, ◌≤◌, ◌<◌, ◌≡◌, String, [], ◌∷◌, length, Option, none, some, Bool, true, false, ◌==◌,
  number_eq, not, text_eq, pair_eq, if◌then◌else◌, ltb, leb, arith, Bool-cases, Option-cases, inl,
  inr, count_if, keep_if, length-keep_if-le, leb→gt,
}
use common_network.Prelude.Dict.{
  Dict, lookup, insert, count_if-insert-none, count_if-insert-some, length-insert-none,
  length-insert-some,
}
use common_network.Mesh.Records.{PeerRecord}
use mathlib.Core.Path.{subst}
use common_network.Directory as Directory
use common_network.Directory.{Entry, Key, Answer, max_total, max_per_network, announce_per_min}

-- No more records than the directory may hold, in all and of any network.
pub record IsWithin (st : Directory.Directory) : Type 0 where
  pub total : length st.records ≤ max_total
  pub per_network :
      (network : String) → count_if (λ kv. kv.0.0 == network) st.records ≤ max_per_network

count_if-keep_if-le :
    (p q : Key × Entry → Bool) (d : Dict Key Entry) → count_if p (keep_if q d) ≤ count_if p d
count_if-keep_if-le p q [] = omega arith
count_if-keep_if-le p q (x ∷ d) = ground (arith, count_if-keep_if-le p q d)

expire-IsWithin :
    (st : Directory.Directory) (now : ℕ) → IsWithin st → IsWithin (Directory.expire st now)
unfolding Directory.expire
expire-IsWithin st now v = record {
  total = omega (
    arith,
    length-keep_if-le (λ kv. not (ltb (kv.1.at + Directory.ttl) now)) st.records,
    v.total,
  );
  per_network = λ n. omega (
    arith,
    count_if-keep_if-le (λ kv. kv.0.0 == n) (λ kv. not (ltb (kv.1.at + Directory.ttl) now))
        st.records,
    v.per_network n,
  );
}

module _ (st : Directory.Directory) (v : IsWithin st) (key : Key) (e : Entry) where
  renew-IsWithin :
      (old : Entry) → lookup key st.records ≡ some old → IsWithin (Directory.store st key e)
  renew-IsWithin old h = record {
    total = omega (arith, length-insert-some key e old st.records h, v.total);
    per_network = λ n.
        omega (arith, count_if-insert-some (λ k. k.0 == n) key e old st.records h, v.per_network n);
  }

  store_new-IsWithin : lookup key st.records ≡ none → IsWithin (Directory.store_new st key e).0
  unfolding Directory.store_new
  store_new-IsWithin h = elim (Bool-cases (leb max_total (length st.records))) [
    | inl full ↦ rw full v
    | inr room ↦
        rw room
          (elim (Bool-cases (leb max_per_network (count_if (λ kv. kv.0.0 == key.0) st.records))) [
            | inl full ↦ rw full v
            | inr net_room ↦
                rw net_room
                  (elim (Bool-cases (
                    leb Directory.max_per_source (count_if (λ kv. kv.1.src == e.src) st.records))) [
                      | inl full ↦ rw full v
                      | inr src_room ↦ rw src_room (record {
                        total = ground (arith, length-insert-none key e st.records h);
                        per_network = λ n. network_room n (leb→gt _ _ net_room);
                      })
                    ])
          ])
  ]
    where
      network_room :
          (n : String)
          → count_if (λ kv. kv.0.0 == key.0) st.records < max_per_network
          → count_if (λ kv. kv.0.0 == n) (insert key e st.records) ≤ max_per_network
      network_room n room =
          let added = count_if-insert-none (λ k. k.0 == n) key e st.records h in
          elim (Bool-cases (key.0 == n)) [
            | inr other ↦ omega (arith, rw other at added, v.per_network n)
            | inl same ↦ omega (
              arith,
              rw same at added,
              subst (λ m. count_if (λ kv. kv.0.0 == m) st.records < max_per_network)
                  ((text_eq.agrees key.0 n).0 same) room,
            )
          ]

store_record-IsWithin :
    (st : Directory.Directory)
    → IsWithin st
    → (now : ℕ) (r : PeerRecord) (ip : String) → IsWithin (Directory.store_record st now r ip).0
unfolding Directory.store_record
store_record-IsWithin st v now r ip =
    let key : Key = (r.network, r.peer) in
    let e : Entry = record { rec = r; at = now; src = ip } in
    elim (Option-cases (lookup key st.records)) [
      | inl n ↦ rw (n, Directory.store_record) (store_new-IsWithin st v key e n)
      | inr (old, h) ↦
          rw (h, Directory.store_record)
            (elim (Bool-cases (ltb r.seq old.rec.seq)) [
              | inl newer ↦ rw newer v
              | inr older ↦ rw older (renew-IsWithin st v key e old h)
            ])
    ]

take_record-IsWithin :
    (st : Directory.Directory)
    → IsWithin st
    → (now : ℕ) (ip : String) (r : PeerRecord) (why : Option String)
    → IsWithin (Directory.take_record st now ip r why).0
unfolding Directory.take_record
take_record-IsWithin st v now ip r (some why) = v
take_record-IsWithin st v now ip r none = elim (Bool-cases (Directory.is_live r now)) [
  | inl live ↦
      rw live (store_record-IsWithin (Directory.expire st now) (expire-IsWithin st now v) now r ip)
  | inr dead ↦ rw dead v
]

limited-IsWithin :
    (st : Directory.Directory)
    → IsWithin st
    → (who : Key) (limit now : ℕ) → IsWithin (Directory.limited st who limit now).0
unfolding Directory.limited
limited-IsWithin st v who limit now =
    let hits = Directory.clean now st.hits in
    elim (Bool-cases
      (leb limit (length (Directory.recent now (Directory.times_or_empty (lookup who hits)))))) [
        | inl many ↦ rw many (record { total = v.total; per_network = v.per_network })
        | inr few ↦ rw few (record { total = v.total; per_network = v.per_network })
      ]

of_body-IsWithin :
    (st : Directory.Directory)
    → IsWithin st
    → (now : ℕ) (ip : String) (body : Option PeerRecord) (verify : PeerRecord → Option String)
    → IsWithin (Directory.of_body st now ip body verify).0
of_body-IsWithin st v now ip none verify = v
of_body-IsWithin st v now ip (some r) verify = take_record-IsWithin st v now ip r (verify r)

either-IsWithin :
    (slow big : Bool) (st st' : Directory.Directory) (a b c : Answer)
    → IsWithin st
    → IsWithin st'
    → IsWithin
        (if◌then◌else◌ {A = Directory.Directory × Answer} slow
          (st, a)
          (if big then (st, b) else (st', c))).0
either-IsWithin true big st st' a b c v v' = v
either-IsWithin false true st st' a b c v v' = v
either-IsWithin false false st st' a b c v v' = v'

-- Whatever is announced, by whom and when, a directory that keeps to its cap in all and for each
-- network still does afterwards.
pub announce-IsWithin :
    (st : Directory.Directory)
    → IsWithin st
    → (now : ℕ) (ip : Option String) (body_bytes : ℕ) (body : Option PeerRecord)
      (verify : PeerRecord → Option String)
    → IsWithin (Directory.announce st now ip body_bytes body verify).0
unfolding Directory.announce
announce-IsWithin st v now none body_bytes body verify = v
announce-IsWithin st v now (some ip) body_bytes body verify =
    let st' = (Directory.limited st ("announce", ip) announce_per_min now).0 in
    let v' = limited-IsWithin st v ("announce", ip) announce_per_min now in
    either-IsWithin (Directory.limited st ("announce", ip) announce_per_min now).1
      (ltb Directory.max_body body_bytes) st' (Directory.of_body st' now ip body verify).0
      Directory.slow_down Directory.too_large (Directory.of_body st' now ip body verify).1 v'
      (of_body-IsWithin st' v' now ip body verify)

-- A new directory keeps to its caps.
pub empty-IsWithin : IsWithin (record { records = []; hits = [] })
empty-IsWithin = record { total = omega arith; per_network = λ n. omega arith }
