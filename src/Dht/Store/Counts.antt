-- ===== src/Dht/Store/Counts.antt =====
-- commonnet/dht/store.py: how many values of a source a list of buckets holds.
use common_network.Prelude.{
  ℕ, ◌+◌, ◌≤◌, ◌≡◌, refl, String, [], ◌∷◌, length, Option, none, some, ◌==◌, number_eq, text_eq,
  if◌then◌else◌, arith, Bool-cases, inl, inr,
}
use common_network.Prelude.Dict.{Dict, lookup, insert}
use common_network.Mesh.Records.{PeerRecord, older_than, live_seconds}
use common_network.Dht.Store
use common_network.Dht.Store.{Value, Bucket, bucket_of, more, less, or_empty}

-- The number of values of one bucket that came from a source.
unfoldable pub from : String → Bucket → ℕ
from s [] = 0
from s ((p, (r, src)) ∷ b) = if src == s then from s b + 1 else from s b

unfoldable pub held_from : String → Dict ℕ Bucket → ℕ
held_from s [] = 0
held_from s ((key, b) ∷ d) = from s b + held_from s d

-- What setting a bucket does to the count: the old bucket's values go and the new one's come.
pub held_from-insert :
    (s : String) (key : ℕ) (b : Bucket) (d : Dict ℕ Bucket)
    → held_from s (insert key b d) + from s (bucket_of key d) ≡ held_from s d + from s b
unfolding held_from insert lookup or_empty from
held_from-insert s key b [] = omega arith
held_from-insert s key b ((k, c) ∷ d) = ground (arith, held_from-insert s key b d)

-- One for a value of this source, nothing for another or for none.
unfoldable pub one_from : String → Option Value → ℕ
one_from s none = 0
one_from s (some (r, src)) = if src == s then 1 else 0

pub from-insert :
    (s p : String) (r : PeerRecord) (src : String) (b : Bucket)
    → from s (insert p (r, src) b) + one_from s (lookup p b) ≡ from s b + one_from s (some (r, src))
unfolding from insert lookup one_from
from-insert s p r src [] = ground arith
from-insert s p r src ((q, (r', src')) ∷ b) = elim (Bool-cases (q == p)) [
  | inl e ↦ rw e (ground arith)
  | inr e ↦ rw e (ground (arith, from-insert s p r src b))
]

-- Expired values leave the counts of their sources right, whatever `k` the counts hold besides.
prune_bucket-from :
    (now : ℕ) (b : Bucket) (counts k : String → ℕ)
    → ((s : String) → from s b + k s ≡ counts s)
    → (s : String)
    → (from s (Store.prune_bucket now b counts).0 + k s ≡ (Store.prune_bucket now b counts).1 s)
      × ((Store.prune_bucket now b counts).1 s ≤ counts s)
      × (length (Store.prune_bucket now b counts).0 ≤ length b)
unfolding from Store.prune_bucket
prune_bucket-from now [] counts k h s = (h s, omega arith, omega arith)
prune_bucket-from now ((p, (r, src)) ∷ b) counts k h s =
    elim (Bool-cases (older_than live_seconds now r)) [
      | inl old ↦
          rw (old, Store.prune_bucket)
            (ground
              (arith, prune_bucket-from now b (less counts src) k (λ s'. ground (arith, h s')) s))
      | inr young ↦
          rw (young, Store.prune_bucket)
            (ground
              (arith, prune_bucket-from now b counts (more k src) (λ s'. ground (arith, h s')) s))
    ]

nothing_from : (s : String) (b : Bucket) → length b ≡ 0 → from s b ≡ 0
unfolding from
nothing_from s [] e = refl
nothing_from s (x ∷ b) e = absurd (omega arith)

held_from-kept :
    (s : String) (key : ℕ) (b : Bucket) (d : Dict ℕ Bucket)
    → held_from s (if length b == 0 then d else (key, b) ∷ d) ≡ from s b + held_from s d
unfolding held_from
held_from-kept s key b d = ground (arith, nothing_from s b)

-- Pruning keeps the counts right, and raises none of them.
pub prune_data-from :
    (now : ℕ) (d : Dict ℕ Bucket) (counts k : String → ℕ)
    → ((s : String) → held_from s d + k s ≡ counts s)
    → (s : String)
    → (held_from s (Store.prune_data now d counts).0 + k s ≡ (Store.prune_data now d counts).1 s)
      × ((Store.prune_data now d counts).1 s ≤ counts s)
unfolding held_from Store.prune_data
prune_data-from now [] counts k h s = (h s, omega arith)
prune_data-from now ((key, b) ∷ d) counts k h s =
    let (b', counts') = Store.prune_bucket now b counts in
    let at_bucket =
      prune_bucket-from now b counts (λ s'. held_from s' d + k s') (λ s'. omega (arith, h s')) in
    let rest =
      prune_data-from now d counts' (λ s'. from s' b' + k s') (λ s'. omega (arith, at_bucket s'))
        s in
    let kept = held_from-kept s key b' (Store.prune_data now d counts').0 in
    omega (arith, at_bucket s)
