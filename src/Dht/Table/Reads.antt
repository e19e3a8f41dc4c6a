-- ===== src/Dht/Table/Reads.antt =====
-- commonnet/dht/table.py: what `get` returns after `add` and `remove`.
use common_network.Prelude.{
  ℕ, ◌≡◌, ◌≢◌, refl, sym, ◌∙◌, List, [], ◌∷◌, ◌++◌, length, true, false, if◌then◌else◌, ◌==◌,
  number_eq, arith, none, some, All, Bool-cases, Option-cases, inl, inr,
}
use mathlib.Core.Path.{subst}
use common_network.Dht.Ids.{bucket_index}
use common_network.Dht.Table
use common_network.Dht.Table.{
  Contact, RoutingTable, find_id, drop_id, note_failure, pop_last, Added, kept,
}
use common_network.Dht.Table.Contacts.{
  has_id, Distinct, has_id-drop_id_self, find_id-some, find_id-none, pop_last-cases, has_id-append,
}
use common_network.Dht.Table.Bucket.{All-split}
use common_network.Dht.Table.Invariant.{IsValid}

find_id-append :
    (i : ℕ) (xs : List Contact) (c : Contact)
    → has_id i xs ≡ false
    → find_id i (xs ++ c ∷ []) ≡ (if c.id == i then some c else none)
unfolding has_id find_id
find_id-append i [] c h = refl
find_id-append i (x ∷ xs) c h = ground (arith, find_id-append i xs c)

absent : (i : ℕ) (xs : List Contact) → has_id i xs ≡ false → find_id i xs ≡ none
unfolding has_id find_id
absent i [] h = refl
absent i (x ∷ xs) h = ground (arith, absent i xs)

-- `get` reads the bucket of the id.
get_at :
    (t : RoutingTable) (i idx : ℕ)
    → i ≢ t.own
    → bucket_index t.own i ≡ some idx
    → Table.get t i ≡ find_id i (t.buckets idx)
unfolding Table.get
get_at t i idx h p = ground arith

not_kept : (xs : List Contact) → Table.first_or_error xs ≢ kept
not_kept [] e = cc
not_kept (x ∷ xs) e = cc

add_at_lem :
    (t : RoutingTable) (contact : Contact) (now idx : ℕ)
    → contact.id ≢ t.own
    → bucket_index t.own contact.id ≡ some idx
    → Table.add t contact now ≡ Table.add_at t idx contact now
unfolding Table.add
add_at_lem t contact now idx h p = ground arith

-- What a write to a bucket makes `get` return for an id of that bucket.
pub get_written :
    (t t' : RoutingTable) (i idx : ℕ) (bucket : List Contact)
    → i ≢ t.own
    → bucket_index t.own i ≡ some idx
    → t'.own ≡ t.own
    → t'.buckets idx ≡ bucket
    → Table.get t' i ≡ find_id i bucket
unfolding Table.get
get_written t t' i idx bucket h p own e = ground arith

module _ (t : RoutingTable) (contact : Contact) (now : ℕ) where
  -- A contact under the id of the added one, with its address and time.
  abbrev pub Found : RoutingTable → Type 0
  Found t' =
      (c : Contact) × (Table.get t' contact.id ≡ some c)
      × (c.addr ≡ contact.addr)
      × (c.last_seen ≡ now)

  module _ (idx : ℕ) (h : contact.id ≢ t.own) (p : bucket_index t.own contact.id ≡ some idx) where
    get-refresh :
        (c : Contact)
        → Distinct (t.buckets idx)
        → find_id contact.id (t.buckets idx) ≡ some c
        → Found (Table.refresh t idx c contact now)
    unfolding Table.refresh
    get-refresh c d f =
        let rest = drop_id contact.id (t.buckets idx) in
        let moved = record c { addr = contact.addr; last_seen = now; fails = 0 } in
        (
          moved,
          get_written t (Table.refresh t idx c contact now) contact.id idx (rest ++ moved ∷ []) h p
                refl (ground arith)
              ∙ find_id-append contact.id rest moved
                  (has_id-drop_id_self contact.id (t.buckets idx) d)
              ∙ ground (arith, find_id-some contact.id (t.buckets idx) c f),
          refl,
          refl,
        )

    get-append :
        find_id contact.id (t.buckets idx) ≡ none
        → Found (Table.append t idx (record contact { last_seen = now }) now)
    unfolding Table.append
    get-append f =
        let seen = record contact { last_seen = now } in
        (
          seen,
          get_written t (Table.append t idx seen now) contact.id idx (t.buckets idx ++ seen ∷ []) h
                p refl (ground arith)
              ∙ find_id-append contact.id (t.buckets idx) seen
                  (find_id-none contact.id (t.buckets idx) f)
              ∙ ground arith,
          refl,
          refl,
        )

    get-add_at :
        Distinct (t.buckets idx)
        → (Table.add_at t idx contact now).1 ≡ kept
        → Found (Table.add_at t idx contact now).0
    unfolding Table.add_at
    get-add_at d k = elim (Option-cases (find_id contact.id (t.buckets idx))) [
      | inr (c, f) ↦ rw (f, Table.add_at) (get-refresh c d f)
      | inl f ↦ elim (Bool-cases (Table.ltb (length (t.buckets idx)) t.k)) [
        | inl room ↦ rw (f, room, Table.add_at) (get-append f)
        | inr no_room ↦ absurd (not_kept (t.buckets idx) (rw (f, no_room, Table.add_at) at k))
      ]
    ]

get_own : (t : RoutingTable) (i : ℕ) → i ≡ t.own → Table.get t i ≡ none
unfolding Table.get
get_own t i e = ground arith

get_nowhere : (t : RoutingTable) (i : ℕ) → bucket_index t.own i ≡ none → Table.get t i ≡ none
unfolding Table.get
get_nowhere t i n = ground arith

-- A contact whose id the list does not hold, where it holds `i`, has another id.
another_id :
    (i : ℕ) (xs : List Contact) (c : Contact)
    → has_id i xs ≡ true
    → has_id c.id xs ≡ false
    → (c.id == i) ≡ false
another_id i xs c h n = elim (Bool-cases (c.id == i)) [
  | inr e ↦ e
  | inl e ↦
      let same : c.id ≡ i = ground arith in
      let held : has_id c.id xs ≡ true = subst (λ j. has_id j xs ≡ true) (sym same) h in cc
]

module _ (t : RoutingTable) (i idx : ℕ) (h : i ≢ t.own) (p : bucket_index t.own i ≡ some idx) where
  get-promote :
      (c : Contact)
      → Distinct (t.buckets idx)
      → All (λ x. has_id x.id (t.buckets idx) ≡ false) (t.cache idx)
      → find_id i (t.buckets idx) ≡ some c
      → Table.get (Table.promote t idx (drop_id i (t.buckets idx))) i ≡ none
  unfolding Table.promote
  get-promote c d apart f =
      let rest = drop_id i (t.buckets idx) in
      let gone = has_id-drop_id_self i (t.buckets idx) d in
      elim (pop_last-cases (t.cache idx)) [
        | inl (empty, n) ↦
            get_written t (Table.promote t idx rest) i idx rest h p (rw (n, Table.promote) refl)
              (rw (n, Table.promote) (ground arith))
            ∙ absent i rest gone
        | inr (front, last, whole, n) ↦
            let alone = (All-split _ front last (subst (All _) whole apart)).1 in
            let other =
              another_id i (t.buckets idx) last (find_id-some i (t.buckets idx) c f).1 alone in
            get_written t (Table.promote t idx rest) i idx (rest ++ last ∷ []) h p
              (rw (n, Table.promote) refl) (rw (n, Table.promote) (ground arith))
            ∙ absent i (rest ++ last ∷ []) (has_id-append i rest last ∙ ground arith)
      ]

  get-remove_at :
      Distinct (t.buckets idx)
      → All (λ x. has_id x.id (t.buckets idx) ≡ false) (t.cache idx)
      → Table.get (Table.remove_at t idx i) i ≡ none
  unfolding Table.remove_at
  get-remove_at d apart = elim (Option-cases (find_id i (t.buckets idx))) [
    | inr (c, f) ↦ rw (f, Table.remove_at) (get-promote c d apart f)
    | inl f ↦
        rw (f, Table.remove_at)
          (get_written t
              (record t { cache = Table.update t.cache idx (Table.others i (t.cache idx)) }) i idx
              (t.buckets idx) h p refl refl
            ∙ f)
  ]

module _ {t : RoutingTable} (v : IsValid t) where
  -- A contact, other than the node itself, that `add` keeps in a valid table is found under its id
  -- afterwards, with the new address and time.
  pub get-add :
      (contact : Contact) (now idx : ℕ)
      → contact.id ≢ t.own
      → bucket_index t.own contact.id ≡ some idx
      → (Table.add t contact now).1 ≡ kept
      → Found t contact now (Table.add t contact now).0
  get-add contact now idx h p e = rw (add_at_lem t contact now idx h p) (
      get-add_at t contact now idx h p (v.each idx).distinct
        (rw (add_at_lem t contact now idx h p) at e))

  -- After `remove` of an id a valid table has no contact under it: a contact that is promoted has
  -- another id.
  pub get-remove : (i : ℕ) → Table.get (Table.remove t i) i ≡ none
  unfolding Table.remove
  get-remove i = elim (Bool-cases (i == t.own)) [
    | inl e ↦ rw e (get_own t i (ground arith))
    | inr e ↦ rw e (elim (Option-cases (bucket_index t.own i)) [
      | inl n ↦ rw n (get_nowhere t i n)
      | inr (idx, p) ↦
          rw p (get-remove_at t i idx (ground arith) p (v.each idx).distinct (v.each idx).apart)
    ])
  ]
