-- ===== src/Mesh/Identity/Rising.antt =====
-- commonnet/mesh/records.py: a record that is signed without a number is newer than all before it.
use common_network.Prelude.{ℕ, ◌+◌, ◌≤◌, ◌<◌, max, List, [], ◌∷◌, Option, none, All, arith}
use common_network.Mesh.Identity as Identity

last_seq-le :
    (i : Identity.Identity) (given : Option ℕ) (now_ms : ℕ)
    → (i.last_seq ≤ (Identity.next_seq i given now_ms).0.last_seq)
      × ((Identity.next_seq i given now_ms).1 ≤ (Identity.next_seq i given now_ms).0.last_seq)
unfolding Identity.next_seq
last_seq-le i given now_ms = (omega arith, omega arith)

last_seq-sign_all :
    (i : Identity.Identity) (asked : List (Option ℕ × ℕ))
    → (i.last_seq ≤ (Identity.sign_all i asked).0.last_seq)
      × All (λ seq. seq ≤ (Identity.sign_all i asked).0.last_seq) (Identity.sign_all i asked).1
unfolding Identity.sign_all
last_seq-sign_all i [] = (omega arith, tt)
last_seq-sign_all i ((given, now_ms) ∷ rest) =
    let (i', seq) = Identity.next_seq i given now_ms in
    let (up, here) = last_seq-le i given now_ms in
    let (more, others) = last_seq-sign_all i' rest in (omega arith, (omega arith, others))

below : (n m : ℕ) (xs : List ℕ) → n < m → All (λ x. x ≤ n) xs → All (λ x. x < m) xs
below n m [] h a = tt
below n m (x ∷ xs) h a = (omega arith, below n m xs h a.1)

-- Whatever numbers the callers gave before, and however the clock went, a record that is signed without a
-- number has a higher one than every record that the identity signed before, and not one below the time.
pub next_seq-rises :
    (i : Identity.Identity) (asked : List (Option ℕ × ℕ)) (now_ms : ℕ)
    → All
        (λ seq. seq < (Identity.next_seq (Identity.sign_all i asked).0 none now_ms).1)
        (Identity.sign_all i asked).1
      × (now_ms ≤ (Identity.next_seq (Identity.sign_all i asked).0 none now_ms).1)
unfolding Identity.next_seq
next_seq-rises i asked now_ms =
    let i' = (Identity.sign_all i asked).0 in
    (
      below i'.last_seq (max now_ms (i'.last_seq + 1)) (Identity.sign_all i asked).1 (omega arith)
          (last_seq-sign_all i asked).1,
      omega arith,
    )
