-- ===== src/Dht/Table/Invariant.antt =====
-- commonnet/dht/table.py: `check_invariants` holds of every table that the methods make.
use common_network.Prelude.{
  ℕ, ◌+◌, ◌<◌, ◌≡◌, refl, sym, List, [], ◌∷◌, ◌++◌, length, ◌==◌, number_eq, arith, some,
  Bool-cases, Option-cases, inl, inr,
}
use mathlib.Core.Path.{subst}
use common_network.Dht.Ids.{bucket_index}
use common_network.Dht.Table
use common_network.Dht.Table.{
  Contact, RoutingTable, find_id, drop_id, others, keep_last, pop_last, note_failure, update, Added,
}
use common_network.Dht.Table.Contacts.{find_id-some, find_id-none, pop_last-cases}
use common_network.Dht.Table.Bucket.{
  IsBucket, refresh-IsBucket, append-IsBucket, set_aside-IsBucket, forget-IsBucket, drop-IsBucket,
  promote-IsBucket, noted-IsBucket,
}

-- What `check_invariants` asserts of every bucket; no cache holds an id twice, and only a full
-- bucket has contacts set aside.
pub record IsValid (t : RoutingTable) : Type 0 where
  pub some_room : 0 < t.k
  pub each : (idx : ℕ) → IsBucket t.own t.k idx (t.buckets idx) (t.cache idx)

module _ (own k : ℕ) where
  abbrev Every : (ℕ → List Contact) → (ℕ → List Contact) → Type 0
  Every bs cs = (i : ℕ) → IsBucket own k i (bs i) (cs i)

module _ (own k : ℕ) (buckets cache : ℕ → List Contact) (idx : ℕ) where
  -- A write to one bucket, to its cache or to both keeps the rest.
  update_both :
      (b c : List Contact)
      → Every own k buckets cache
      → IsBucket own k idx b c
      → Every own k (update buckets idx b) (update cache idx c)
  update_both b c all v i = elim (Bool-cases (idx == i)) [
    | inl e ↦ rw e (subst (λ j. IsBucket own k j b c) (ground arith) v)
    | inr e ↦ rw e (all i)
  ]

  update_bucket :
      (b : List Contact)
      → Every own k buckets cache
      → IsBucket own k idx b (cache idx)
      → Every own k (update buckets idx b) cache
  update_bucket b all v i = elim (Bool-cases (idx == i)) [
    | inl e ↦ rw e (subst (λ j. IsBucket own k j b (cache j)) (ground arith) v)
    | inr e ↦ rw e (all i)
  ]

  update_cache :
      (c : List Contact)
      → Every own k buckets cache
      → IsBucket own k idx (buckets idx) c
      → Every own k buckets (update cache idx c)
  update_cache c all v i = elim (Bool-cases (idx == i)) [
    | inl e ↦ rw e (subst (λ j. IsBucket own k j (buckets j) c) (ground arith) v)
    | inr e ↦ rw e (all i)
  ]

-- A new table passes the check.
pub init-IsValid : (own k : ℕ) → 0 < k → IsValid (Table.init own k)
unfolding Table.init
init-IsValid own k h = record {
  some_room = h;
  each = λ idx. record {
    within = omega arith;
    cache_within = omega arith;
    placed = tt;
    cache_placed = tt;
    distinct = tt;
    cache_distinct = tt;
    apart = tt;
    full = λ p. absurd (omega arith);
  };
}

module _ {t : RoutingTable} (v : IsValid t) where
  add_at-IsValid :
      (idx : ℕ) (contact : Contact) (now : ℕ)
      → bucket_index t.own contact.id ≡ some idx
      → IsValid (Table.add_at t idx contact now).0
  unfolding Table.add_at Table.refresh Table.append Table.set_aside
  add_at-IsValid idx contact now p = elim (Option-cases (find_id contact.id (t.buckets idx))) [
    | inr (c, e) ↦
        let moved = record c { addr = contact.addr; last_seen = now; fails = 0 } in
        let same = (find_id-some contact.id (t.buckets idx) c e).0 in
        let at_id = subst (λ i. find_id i (t.buckets idx) ≡ some c) (sym same) e in
        rw (e, Table.add_at)
          (record {
            some_room = v.some_room;
            each = update_bucket t.own t.k t.buckets t.cache idx _ v.each (
                subst
                  (λ i.
                    IsBucket t.own t.k idx (drop_id i (t.buckets idx) ++ moved ∷ []) (t.cache idx))
                  same (refresh-IsBucket (v.each idx) c moved at_id refl));
          })
    | inl e ↦
        let seen = record contact { last_seen = now } in
        let fresh = find_id-none contact.id (t.buckets idx) e in
        rw (e, Table.add_at)
          (elim (Bool-cases (Table.ltb (length (t.buckets idx)) t.k)) [
            | inl room ↦ rw room (record {
              some_room = v.some_room;
              each =
                  update_bucket t.own t.k t.buckets t.cache idx _ v.each
                    (append-IsBucket (v.each idx) seen p fresh (ground arith));
            })
            | inr no_room ↦ rw no_room (record {
              some_room = v.some_room;
              each =
                  update_cache t.own t.k t.buckets t.cache idx _ v.each
                    (set_aside-IsBucket (v.each idx) seen v.some_room p fresh (ground arith));
            })
          ])
  ]

  -- Adding a contact keeps a valid table valid.
  pub add-IsValid : (contact : Contact) (now : ℕ) → IsValid (Table.add t contact now).0
  unfolding Table.add
  add-IsValid contact now = elim (Bool-cases (contact.id == t.own)) [
    | inl e ↦ rw e v
    | inr e ↦ rw e (elim (Option-cases (bucket_index t.own contact.id)) [
      | inl n ↦ rw n v
      | inr (idx, p) ↦ rw p (add_at-IsValid idx contact now p)
    ])
  ]

  promote-IsValid :
      (idx i : ℕ) (c : Contact)
      → find_id i (t.buckets idx) ≡ some c
      → IsValid (Table.promote t idx (drop_id i (t.buckets idx)))
  unfolding Table.promote
  promote-IsValid idx i c e = elim (pop_last-cases (t.cache idx)) [
    | inl (empty, n) ↦
        rw (n, Table.promote)
          (record {
            some_room = v.some_room;
            each =
                update_bucket t.own t.k t.buckets t.cache idx _ v.each
                  (drop-IsBucket (v.each idx) i empty);
          })
    | inr (front, last, whole, n) ↦
        rw (n, Table.promote)
          (record {
            some_room = v.some_room;
            each = update_both t.own t.k t.buckets t.cache idx _ _ v.each (
                promote-IsBucket i c last front e
                  (subst (λ l. IsBucket t.own t.k idx (t.buckets idx) l) whole (v.each idx)));
          })
  ]

  -- Removing a contact, and promoting a replacement, keeps a valid table valid.
  pub remove-IsValid : (i : ℕ) → IsValid (Table.remove t i)
  unfolding Table.remove Table.remove_at
  remove-IsValid i = elim (Bool-cases (i == t.own)) [
    | inl e ↦ rw e v
    | inr e ↦ rw e (elim (Option-cases (bucket_index t.own i)) [
      | inl n ↦ rw n v
      | inr (idx, p) ↦ rw p (elim (Option-cases (find_id i (t.buckets idx))) [
        | inr (c, f) ↦ rw (f, Table.remove_at) (promote-IsValid idx i c f)
        | inl f ↦
            rw (f, Table.remove_at)
              (record {
                some_room = v.some_room;
                each =
                    update_cache t.own t.k t.buckets t.cache idx _ v.each
                      (forget-IsBucket (v.each idx) i);
              })
      ])
    ])
  ]

  pub noted-IsValid : (i : ℕ) → IsValid (Table.noted t i)
  unfolding Table.noted
  noted-IsValid i = elim (Option-cases (bucket_index t.own i)) [
    | inl n ↦ rw (n, Table.noted) v
    | inr (idx, p) ↦
        rw (p, Table.noted)
          (record {
            some_room = v.some_room;
            each =
                update_bucket t.own t.k t.buckets t.cache idx _ v.each
                  (noted-IsBucket i (v.each idx));
          })
  ]

-- Noting a failure keeps a valid table valid, also where it removes the contact.
pub fail-IsValid : {t : RoutingTable} → IsValid t → (i limit : ℕ) → IsValid (Table.fail t i limit).0
unfolding Table.fail
fail-IsValid {t} v i limit = elim (Option-cases (Table.get t i)) [
  | inl e ↦ rw (e, Table.fail) v
  | inr (c, e) ↦
      rw (e, Table.fail)
        (elim (Bool-cases (Table.leb limit (c.fails + 1))) [
          | inl drop ↦ rw drop (remove-IsValid (noted-IsValid v i) i)
          | inr stay ↦ rw stay (noted-IsValid v i)
        ])
]
