-- ===== src/Mesh/Gossip/Export.antt =====
-- commonnet/mesh/gossip.py: what `export` hands on, and that a neighbour with the same clock takes it.
use common_network.Prelude.{
  ℕ, ◌+◌, ◌≤◌, ◌≡◌, ◌≢◌, ◌⊎◌, inl, inr, String, List, [], ◌∷◌, true, false, not, text_eq, arith,
  All, All-take, All-of_keep_if, keep_if, number_eq, length, length-take, ◌==◌, ap, Bool-cases,
}
use common_network.Prelude.Dict.{Dict}
use common_network.Prelude.Sort.{sort_by, Sorted, IsOrder, All-sort_by, take-Sorted, sort_by-Sorted}
use common_network.Prelude.Top.{
  Among, All-of, Among-keep_if, Among-of_keep_if, take-first_or_behind,
}
use common_network.Mesh.Records.{PeerRecord, older_than}
use common_network.Mesh.Gossip
use common_network.Mesh.Gossip.{PeerTable, values, newer, forget_seconds, tombstone_seconds}

newer-IsOrder : IsOrder newer
newer-IsOrder = record { total = λ a b h. ground arith; trans = λ a b c h g. ground arith }

-- The records of a table that are handed on at a time.
abbrev pub sendable : PeerTable → ℕ → List PeerRecord
sendable t now = keep_if (Gossip.worth_sending now) (values (Gossip.forget t now).records)

-- A record that is worth sending: fresh and in any state but leaving, or a tombstone of five minutes.
abbrev pub IsSendable : ℕ → PeerRecord → Type 0
IsSendable now r =
    ((r.state ≢ "leaving") × (now ≤ r.ts + 60)) ⊎ ((r.state ≡ "leaving") × (now ≤ r.ts + 300))

-- The table has the record under some name.
abbrev pub IsHeld : PeerTable → PeerRecord → Type 0
IsHeld t r = (peer : String) × Among (peer, r) t.records

-- No record is followed by a newer one.
abbrev pub Descending : List PeerRecord → Type 0
Descending [] = Unit
Descending (r ∷ rs) = All (λ s. s.ts ≤ r.ts) rs × Descending rs

pub record IsNewest (t : PeerTable) (now limit : ℕ) (out : List PeerRecord) : Type 0 where
  pub held : All (λ r. IsHeld t r × IsSendable now r) out
  pub descending : Descending out
  pub within : length out ≤ limit
  pub complete :
      (peer : String) (r : PeerRecord)
      → Among (peer, r) t.records
      → IsSendable now r
      → Among r out ⊎ (All (λ s. r.ts ≤ s.ts) out × (length out ≡ limit))

Among-values :
    (peer : String) (r : PeerRecord) (d : Dict String PeerRecord)
    → Among (peer, r) d
    → Among r (values d)
Among-values peer r [] m = absurd m
Among-values peer r (kv ∷ d) (inl e) = inl (ap (λ (p : String × PeerRecord). p.1) e)
Among-values peer r (kv ∷ d) (inr m) = inr (Among-values peer r d m)

Among-of_values :
    (r : PeerRecord) (d : Dict String PeerRecord)
    → Among r (values d)
    → (peer : String) × Among (peer, r) d
Among-of_values r [] m = absurd m
Among-of_values r ((k, s) ∷ d) (inl e) = (k, inl (ap (λ (x : PeerRecord). (k, x)) e))
Among-of_values r ((k, s) ∷ d) (inr m) = let (peer, n) = Among-of_values r d m in (peer, inr n)

worth_sending-IsSendable :
    (now : ℕ) (r : PeerRecord) → Gossip.worth_sending now r ≡ true → IsSendable now r
unfolding Gossip.worth_sending
worth_sending-IsSendable now r h = elim (Bool-cases (r.state == "leaving")) [
  | inl e ↦ inr ((text_eq.agrees r.state "leaving").0 e, ground arith)
  | inr e ↦ inl (λ l. let m = (text_eq.agrees r.state "leaving").1 l in ground arith, ground arith)
]

IsSendable-worth_sending :
    (now : ℕ) (r : PeerRecord) → IsSendable now r → Gossip.worth_sending now r ≡ true
unfolding Gossip.worth_sending
IsSendable-worth_sending now r (inl (s, h)) = elim (Bool-cases (r.state == "leaving")) [
  | inl e ↦ absurd (s ((text_eq.agrees r.state "leaving").0 e))
  | inr e ↦ ground arith
]
IsSendable-worth_sending now r (inr (s, h)) =
    let e : (r.state == "leaving") ≡ true = (text_eq.agrees r.state "leaving").1 s in ground arith

IsSendable-young :
    (now : ℕ) (r : PeerRecord) → IsSendable now r → not (older_than forget_seconds now r) ≡ true
IsSendable-young now r (inl (s, h)) = ground arith
IsSendable-young now r (inr (s, h)) = ground arith

Sorted-Descending : (rs : List PeerRecord) → Sorted newer rs → Descending rs
Sorted-Descending [] h = tt
Sorted-Descending (r ∷ rs) h = (later rs h.0, Sorted-Descending rs h.1)
  where
    later : (xs : List PeerRecord) → All (λ s. newer r s ≡ true) xs → All (λ s. s.ts ≤ r.ts) xs
    later [] k = tt
    later (x ∷ xs) k = (ground arith, later xs k.1)

not_newer :
    (r : PeerRecord) (xs : List PeerRecord)
    → All (λ s. newer s r ≡ true) xs
    → All (λ s. r.ts ≤ s.ts) xs
not_newer r [] k = tt
not_newer r (x ∷ xs) k = (ground arith, not_newer r xs k.1)

module _ (t : PeerTable) (now : ℕ) where
  sendable-IsHeld : (r : PeerRecord) → Among r (sendable t now) → IsHeld t r × IsSendable now r
  unfolding Gossip.forget
  sendable-IsHeld r m =
      let (worth, held) =
        Among-of_keep_if (Gossip.worth_sending now) r (values (Gossip.forget t now).records) m in
      let (peer, kept) = Among-of_values r (Gossip.forget t now).records held in
      let (young, mine) =
        Among-of_keep_if (λ (kv : String × PeerRecord). not (older_than forget_seconds now kv.1))
          (peer, r) t.records kept in
      ((peer, mine), worth_sending-IsSendable now r worth)

  IsHeld-sendable :
      (peer : String) (r : PeerRecord)
      → Among (peer, r) t.records
      → IsSendable now r
      → Among r (sendable t now)
  unfolding Gossip.forget
  IsHeld-sendable peer r m s =
      Among-keep_if (Gossip.worth_sending now) r (values (Gossip.forget t now).records)
        (IsSendable-worth_sending now r s)
        (Among-values peer r (Gossip.forget t now).records (
          Among-keep_if (λ (kv : String × PeerRecord). not (older_than forget_seconds now kv.1))
            (peer, r) t.records (IsSendable-young now r s) m))

-- The records that `export` gives are held, and worth sending: not leaving and at most 60 seconds
-- old, or leaving and at most 300. Each is at least as new as those after it, and they are at most
-- `limit`. Any record that the table holds and that is worth sending is given too, or `limit`
-- records are given and none of them is older.
pub export-IsNewest :
    (t : PeerTable) (now limit : ℕ) → IsNewest t now limit (Gossip.export t now limit).1
unfolding Gossip.export
export-IsNewest t now limit =
    let all = sendable t now in
    record {
      held =
          All-take _ limit (sort_by newer all)
            (All-sort_by newer _ all (All-of _ all (sendable-IsHeld t now)));
      descending =
          Sorted-Descending _
            (take-Sorted newer limit (sort_by newer all) (sort_by-Sorted newer newer-IsOrder all));
      within = omega (arith, length-take limit (sort_by newer all));
      complete = λ peer r m s.
          elim (take-first_or_behind newer newer-IsOrder limit r all
            (IsHeld-sendable t now peer r m s)) [
              | inl k ↦ inl k
              | inr (h, e) ↦ inr (not_newer r _ h, e)
            ];
    }

-- No record that `export` gives is older at that time than the age from which `merge` refuses it.
pub export-accepted :
    (t : PeerTable) (now limit : ℕ)
    → All (λ r. older_than forget_seconds now r ≡ false) (Gossip.export t now limit).1
unfolding Gossip.export Gossip.worth_sending
export-accepted t now limit = All-take _ limit (sort_by newer (sendable t now)) (
    All-sort_by newer _ (sendable t now)
      (All-of_keep_if _ (Gossip.worth_sending now) (values (Gossip.forget t now).records) young))
  where
    young :
        (r : PeerRecord)
        → Gossip.worth_sending now r ≡ true
        → older_than forget_seconds now r ≡ false
    young r h = ground arith
