-- ===== src/Dht/Table/Steps.antt =====
-- commonnet/dht/table.py: every table that calls of the methods make from an empty one.
use common_network.Prelude.{ℕ, ◌<◌}
use common_network.Dht.Table
use common_network.Dht.Table.{Contact, RoutingTable}
use common_network.Dht.Table.Invariant.{
  IsValid, init-IsValid, add-IsValid, remove-IsValid, fail-IsValid,
}

-- One call of a method that changes the table.
pub data Step : RoutingTable → RoutingTable → Type 0 where
  adds : (t : RoutingTable) (contact : Contact) (now : ℕ) → Step t (Table.add t contact now).0
  removes : (t : RoutingTable) (i : ℕ) → Step t (Table.remove t i)
  fails : (t : RoutingTable) (i limit : ℕ) → Step t (Table.fail t i limit).0
  touches : (t : RoutingTable) (idx now : ℕ) → Step t (Table.touch_bucket t idx now)

pub data Reachable (own k : ℕ) : RoutingTable → Type 0 where
  new : Reachable own k (Table.init own k)
  next : {t u : RoutingTable} → Reachable own k t → Step t u → Reachable own k u

Step-IsValid : {t u : RoutingTable} → Step t u → IsValid t → IsValid u
unfolding Table.touch_bucket
Step-IsValid (adds t contact now) v = add-IsValid v contact now
Step-IsValid (removes t i) v = remove-IsValid v i
Step-IsValid (fails t i limit) v = fail-IsValid v i limit
Step-IsValid (touches t idx now) v = record { some_room = v.some_room; each = v.each }

-- Whatever calls of `add`, `remove`, `fail` and `touch_bucket` are made, in whatever order, on a table that is
-- empty at first and has room for a contact in a bucket, `check_invariants` holds of the table.
pub Reachable-IsValid : (own k : ℕ) (t : RoutingTable) → 0 < k → Reachable own k t → IsValid t
Reachable-IsValid own k t some_room new = init-IsValid own k some_room
Reachable-IsValid own k t some_room (next r s) =
    Step-IsValid s (Reachable-IsValid own k _ some_room r)
