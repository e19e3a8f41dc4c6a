-- ===== src/Mesh/Gossip/Merge.antt =====
-- commonnet/mesh/gossip.py: merging keeps the newest record of each peer, in whatever order they come.
use mathlib.Core.List.{Perm, foldr}
use mathlib.Core.List.Perm as Permutation
use mathlib.Core.Path.{subst}
use mathlib.Core.Option.{is_set}
use native.Mathlib.Nat.{ℕ_set}
use common_network.Prelude.{
  ℕ, suc, ◌≤◌, ◌<◌, ◌≡◌, refl, ap, sym, ◌∙◌, max, String, List, [], ◌∷◌, Option, none, some, Bool,
  true, false, ◌&&◌, ◌==◌, text_eq, leb, if◌then◌else◌, take-all, length, arith, Bool-cases,
  Option-cases, ◌⊎◌, inl, inr,
}
use common_network.Prelude.Dict.{lookup, lookup-insert}
use common_network.Mesh.Records.{PeerRecord}
use common_network.Mesh.Gossip
use common_network.Mesh.Gossip.{PeerTable, store, max_records}

-- The sequence number of the record that the table holds of a peer.
unfoldable pub seq_at : PeerTable → String → Option ℕ
seq_at t p = elim (Gossip.get t p) [ none ↦ none | some r ↦ some r.seq ]

-- The larger of a number and another that may be there.
abbrev pub raised : Option ℕ → ℕ → Option ℕ
raised none n = some n
raised (some m) n = some (max m n)

raised-commutes :
    (x y : Bool) (m n : ℕ) (s : Option ℕ)
    → (if x then raised (if y then raised s n else s) m else (if y then raised s n else s))
      ≡ (if y then raised (if x then raised s m else s) n else (if x then raised s m else s))
raised-commutes false y m n s = refl
raised-commutes true false m n s = refl
raised-commutes true true m n none = ap some (omega arith)
raised-commutes true true m n (some k) = ap some (omega arith)

module _ (verify_record : PeerRecord → Bool) where
  -- What a record does to the number of a peer.
  abbrev pub bump : String → String → ℕ → PeerRecord → Option ℕ → Option ℕ
  bump network p now r s =
      if Gossip.welcome verify_record network now r && r.peer == p then raised s r.seq else s

  module _ (t : PeerTable) (now : ℕ) (r : PeerRecord) where
    network-merge : (Gossip.merge verify_record t now r).0.network ≡ t.network
    unfolding Gossip.merge
    network-merge = elim (Bool-cases (Gossip.welcome verify_record t.network now r)) [
      | inr e ↦ rw (e, Gossip.merge) refl
      | inl e ↦ elim (Option-cases (lookup r.peer t.records)) [
        | inl n ↦ rw (e, n, Gossip.merge) refl
        | inr (held, h) ↦ elim (Bool-cases (leb r.seq held.seq)) [
          | inl le ↦ rw (e, h, le, Gossip.merge) refl
          | inr gt ↦ rw (e, h, gt, Gossip.merge) refl
        ]
      ]
    ]

    -- What is stored under the peer of the record.
    seq_at-store :
        (p : String) → seq_at (store t r) p ≡ (if r.peer == p then some r.seq else seq_at t p)
    unfolding seq_at Gossip.get
    seq_at-store p = ground (arith, lookup-insert r.peer p r t.records)

    seq_at-held :
        (p : String) (held : PeerRecord)
        → (r.peer == p) ≡ true
        → lookup r.peer t.records ≡ some held
        → seq_at t p ≡ some held.seq
    unfolding seq_at Gossip.get
    seq_at-held p held e h =
        let at_p : lookup p t.records ≡ some held =
          subst (λ q. lookup q t.records ≡ some held) ((text_eq.agrees r.peer p).0 e) h in
        rw (at_p, seq_at) refl

    seq_at-none :
        (p : String) → (r.peer == p) ≡ true → lookup r.peer t.records ≡ none → seq_at t p ≡ none
    unfolding seq_at Gossip.get
    seq_at-none p e h =
        let at_p : lookup p t.records ≡ none =
          subst (λ q. lookup q t.records ≡ none) ((text_eq.agrees r.peer p).0 e) h in
        rw (at_p, seq_at) refl

    -- Merging a record raises the number of its peer, where the record is welcome, and of no other.
    pub seq_at-merge :
        (p : String)
        → seq_at (Gossip.merge verify_record t now r).0 p ≡ bump t.network p now r (seq_at t p)
    unfolding Gossip.merge
    seq_at-merge p = elim (Bool-cases (Gossip.welcome verify_record t.network now r)) [
      | inr e ↦ rw (e, Gossip.merge) refl
      | inl e ↦ elim (Option-cases (lookup r.peer t.records)) [
        | inl n ↦
            rw (e, n, Gossip.merge) (seq_at-store p ∙ by_peer p (λ h. inl (seq_at-none p h n)))
        | inr (held, h) ↦ elim (Bool-cases (leb r.seq held.seq)) [
          | inl le ↦
              rw (e, h, le, Gossip.merge) (kept p held (ground arith) (λ q. seq_at-held p held q h))
          | inr gt ↦
              rw (e, h, gt, Gossip.merge)
                (seq_at-store p ∙ by_peer p (λ q. inr (held, ground arith, seq_at-held p held q h)))
        ]
      ]
    ]
      where
        by_peer :
            (p : String)
            → ((r.peer == p) ≡ true
                → (seq_at t p ≡ none)
                  ⊎ ((held : PeerRecord) × (held.seq < r.seq) × (seq_at t p ≡ some held.seq)))
            → (if r.peer == p then some r.seq else seq_at t p)
              ≡ (if r.peer == p then raised (seq_at t p) r.seq else seq_at t p)
        by_peer p f = elim (Bool-cases (r.peer == p)) [
          | inr q ↦ rw q refl
          | inl q ↦ elim (f q) [
            | inl n ↦ rw (q, n) refl
            | inr (held, lt, h) ↦ rw (q, h) (ap some (omega arith))
          ]
        ]

        kept :
            (p : String) (held : PeerRecord)
            → r.seq ≤ held.seq
            → ((r.peer == p) ≡ true → seq_at t p ≡ some held.seq)
            → seq_at t p ≡ (if r.peer == p then raised (seq_at t p) r.seq else seq_at t p)
        kept p held le f = elim (Bool-cases (r.peer == p)) [
          | inr q ↦ rw q refl
          | inl q ↦ rw (q, f q) (ap some (omega arith))
        ]

  bump-commutes :
      (network p : String) (now : ℕ) (a b : PeerRecord) (s : Option ℕ)
      → bump network p now a (bump network p now b s)
        ≡ bump network p now b (bump network p now a s)
  bump-commutes network p now a b s = raised-commutes _ _ a.seq b.seq s

  module _ (network p : String) (now : ℕ) where
    foldr-bump :
        (r : PeerRecord) (rs : List PeerRecord) (s : Option ℕ)
        → foldr (bump network p now) (bump network p now r s) rs
          ≡ bump network p now r (foldr (bump network p now) s rs)
    foldr-bump r [] s = refl
    foldr-bump r (x ∷ xs) s =
        ap (bump network p now x) (foldr-bump r xs s)
        ∙ bump-commutes network p now x r (foldr (bump network p now) s xs)

  -- A list of records raises the numbers by its records in turn.
  pub seq_at-merge_all :
      (t : PeerTable) (now i : ℕ) (rs : List PeerRecord) (p : String)
      → seq_at (Gossip.merge_all verify_record t (λ j. now) i rs).0 p
        ≡ foldr (bump t.network p now) (seq_at t p) rs
  unfolding Gossip.merge_all
  seq_at-merge_all t now i [] p = refl
  seq_at-merge_all t now i (r ∷ rs) p =
      let t' = (Gossip.merge verify_record t now r).0 in
      seq_at-merge_all t' now (suc i) rs p
      ∙ ap (λ n. foldr (bump n p now) (seq_at t' p) rs) (network-merge t now r)
      ∙ ap (λ s. foldr (bump t.network p now) s rs) (seq_at-merge t now r p)
      ∙ foldr-bump t.network p now r rs (seq_at t p)

  -- Where a list of at most `max_records` records is merged at one time, the sequence number the
  -- table then holds of each peer does not depend on the order of the records.
  pub merge_many-Perm :
      (t : PeerTable) (now : ℕ) {rs rs' : List PeerRecord} (p : String)
      → Perm rs rs'
      → length rs ≤ max_records
      → length rs' ≤ max_records
      → seq_at (Gossip.merge_many verify_record t (λ j. now) rs).0 p
        ≡ seq_at (Gossip.merge_many verify_record t (λ j. now) rs').0 p
  unfolding Gossip.merge_many
  merge_many-Perm t now {rs} {rs'} p same h h' =
      rw (take-all max_records rs h, take-all max_records rs' h')
        (seq_at-merge_all t now 0 rs p
          ∙ Permutation.foldr-eq (is_set ℕ_set) (bump t.network p now)
              (bump-commutes t.network p now) same (seq_at t p)
          ∙ sym (seq_at-merge_all t now 0 rs' p))
