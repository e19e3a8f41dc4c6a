-- ===== src/Dht/Table/Failures.antt =====
-- commonnet/dht/table.py: what `get` returns after `fail`.
use common_network.Prelude.{
  ℕ, ◌+◌, ◌≤◌, ◌<◌, ◌≡◌, ◌≢◌, refl, ◌∙◌, List, [], ◌∷◌, drop, true, false, ◌==◌, number_eq, arith,
  none, some, Bool-cases, Option-cases, ◌⊎◌, inl, inr,
}
use common_network.Dht.Ids.{bucket_index}
use common_network.Dht.Table
use common_network.Dht.Table.{
  Contact, RoutingTable, find_id, drop_id, note_failure, pop_last, Added, kept,
}
use common_network.Dht.Table.Invariant.{IsValid, noted-IsValid}
use common_network.Dht.Table.Reads.{get_written, get-remove}

find_id-note_failure :
    (i : ℕ) (xs : List Contact) (c : Contact)
    → find_id i xs ≡ some c
    → find_id i (note_failure i xs) ≡ some (record c { fails = c.fails + 1 })
unfolding find_id note_failure
find_id-note_failure i [] c e = cc
find_id-note_failure i (x ∷ xs) c e = ground (arith, find_id-note_failure i xs c)

get-find_id :
    (t : RoutingTable) (i : ℕ) (c : Contact)
    → Table.get t i ≡ some c
    → (idx : ℕ) × (i ≢ t.own)
      × (bucket_index t.own i ≡ some idx)
      × (find_id i (t.buckets idx) ≡ some c)
unfolding Table.get
get-find_id t i c g = elim (Bool-cases (i == t.own)) [
  | inl e ↦ absurd (none≢some (rw e at g))
  | inr e ↦ elim (Option-cases (bucket_index t.own i)) [
    | inl n ↦ absurd (none≢some (rw (e, n) at g))
    | inr (idx, p) ↦ (idx, ground arith, p, rw (e, p) at g)
  ]
]
  where
    none≢some : none ≢ some c
    none≢some e = cc

get-noted :
    (t : RoutingTable) (i : ℕ) (c : Contact)
    → Table.get t i ≡ some c
    → Table.get (Table.noted t i) i ≡ some (record c { fails = c.fails + 1 })
unfolding Table.noted
get-noted t i c g =
    let (idx, h, p, f) = get-find_id t i c g in
    get_written t (Table.noted t i) i idx (note_failure i (t.buckets idx)) h p
      (rw (p, Table.noted) refl) (rw (p, Table.noted) (ground arith))
    ∙ find_id-note_failure i (t.buckets idx) c f

-- `fail` of a contact of a valid table reports a removal exactly where the contact has now failed
-- `limit` times in a row: then the table no longer has it, and otherwise it has it with the count one
-- higher.
pub get-fail :
    {t : RoutingTable} (v : IsValid t) (i limit : ℕ) (c : Contact)
    → Table.get t i ≡ some c
    → ((limit ≤ c.fails + 1)
        × ((Table.fail t i limit).1 ≡ true)
        × (Table.get (Table.fail t i limit).0 i ≡ none))
      ⊎ ((c.fails + 1 < limit)
          × ((Table.fail t i limit).1 ≡ false)
          × (Table.get (Table.fail t i limit).0 i ≡ some (record c { fails = c.fails + 1 })))
unfolding Table.fail
get-fail {t} v i limit c g = elim (Bool-cases (Table.leb limit (c.fails + 1))) [
  | inl drop ↦ rw (g, Table.fail, drop) (inl (ground arith, refl, get-remove (noted-IsValid v i) i))
  | inr stay ↦ rw (g, Table.fail, stay) (inr (ground arith, refl, get-noted t i c g))
]
