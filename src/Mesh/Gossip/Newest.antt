-- ===== src/Mesh/Gossip/Newest.antt =====
-- commonnet/mesh/gossip.py: no record that is merged is lost, and none is brought back.
use mathlib.Core.List.{foldr}
use mathlib.Core.Path.{subst}
use common_network.Prelude.{
  ℕ, suc, ◌≤◌, ◌≡◌, sym, String, List, [], ◌∷◌, ◌++◌, Option, none, some, Bool, true, ◌&&◌, ◌==◌,
  text_eq, take-all, length, arith, Bool-cases, inl, inr, equal_refl,
}
use common_network.Mesh.Records.{PeerRecord}
use common_network.Mesh.Gossip
use common_network.Mesh.Gossip.{PeerTable, store, max_records}
use common_network.Mesh.Gossip.Merge.{seq_at, raised, bump, seq_at-merge, seq_at-merge_all}

module _ (verify_record : PeerRecord → Bool) where
  -- The table holds of a peer a record with at least the number `n`.
  abbrev pub AtLeast : Option ℕ → ℕ → Type 0
  AtLeast none n = ⊥
  AtLeast (some m) n = n ≤ m

  module _ (network p : String) (now : ℕ) where
    bump-AtLeast :
        (r : PeerRecord) (s : Option ℕ) (n : ℕ)
        → AtLeast s n
        → AtLeast (bump verify_record network p now r s) n
    bump-AtLeast r none n h = absurd h
    bump-AtLeast r (some m) n h =
        elim (Bool-cases (Gossip.welcome verify_record network now r && r.peer == p)) [
          | inl e ↦ rw e (omega arith)
          | inr e ↦ rw e h
        ]

    raised-AtLeast : (s : Option ℕ) (n : ℕ) → AtLeast (raised s n) n
    raised-AtLeast none n = omega arith
    raised-AtLeast (some m) n = omega arith

    foldr_keeps :
        (rs : List PeerRecord) (s : Option ℕ) (n : ℕ)
        → AtLeast s n
        → AtLeast (foldr (bump verify_record network p now) s rs) n
    foldr_keeps [] s n h = h
    foldr_keeps (r ∷ rs) s n h =
        bump-AtLeast r (foldr (bump verify_record network p now) s rs) n (foldr_keeps rs s n h)

  foldr_has :
      (network : String) (now : ℕ) (r : PeerRecord) (before after : List PeerRecord) (s : Option ℕ)
      → Gossip.welcome verify_record network now r ≡ true
      → AtLeast (foldr (bump verify_record network r.peer now) s (before ++ r ∷ after)) r.seq
  foldr_has network now r [] after s w =
      rw (w, equal_refl r.peer)
        (raised-AtLeast network r.peer now (foldr (bump verify_record network r.peer now) s after)
          r.seq)
  foldr_has network now r (x ∷ xs) after s w =
      bump-AtLeast network r.peer now x _ r.seq (foldr_has network now r xs after s w)

  -- After a list of at most `max_records` records is merged at one time, the table holds for the peer of
  -- each welcome record of the list a record with at least its sequence number.
  pub merge_many-AtLeast :
      (t : PeerTable) (now : ℕ) (r : PeerRecord) (before after : List PeerRecord)
      → length (before ++ r ∷ after) ≤ max_records
      → Gossip.welcome verify_record t.network now r ≡ true
      → AtLeast
          (seq_at (Gossip.merge_many verify_record t (λ j. now) (before ++ r ∷ after)).0 r.peer)
          r.seq
  unfolding Gossip.merge_many
  merge_many-AtLeast t now r before after h w = rw (take-all max_records (before ++ r ∷ after) h) (
      subst (λ s. AtLeast s r.seq)
        (sym (seq_at-merge_all verify_record t now 0 (before ++ r ∷ after) r.peer))
        (foldr_has t.network now r before after (seq_at t r.peer) w))

  -- Merging records never brings back an older one: the sequence number held of a peer does not fall.
  pub merge_all-AtLeast :
      (t : PeerTable) (now : ℕ → ℕ) (i : ℕ) (rs : List PeerRecord) (p : String) (n : ℕ)
      → AtLeast (seq_at t p) n
      → AtLeast (seq_at (Gossip.merge_all verify_record t now i rs).0 p) n
  unfolding Gossip.merge_all
  merge_all-AtLeast t now i [] p n h = h
  merge_all-AtLeast t now i (r ∷ rs) p n h =
      merge_all-AtLeast (Gossip.merge verify_record t (now i) r).0 now (suc i) rs p n (
        subst (λ s. AtLeast s n) (sym (seq_at-merge verify_record t (now i) r p))
          (bump-AtLeast t.network p (now i) r (seq_at t p) n h))
