-- ===== src/Dht/Ids/Range.antt =====
-- commonnet/dht/ids.py: bounds of `bucket_index`, and when it fails.
use Prim.Native.Nat.{digits, differ, bit_xor-bitwise}
use native.Mathlib.Nat.{pow-suc}
use common_network.Prelude.{
  ℕ, zero, suc, ◌+◌, ◌-◌, ◌*◌, ◌/◌, ◌%◌, ◌^◌, ◌≤◌, ◌<◌, ◌≡◌, ◌≢◌, refl, sym, ap, ◌∙◌, true, false,
  some, bit_xor, ◌==◌, number_eq, arith,
}
use common_network.Dht.Ids.{bits, bit_length, bucket_index, id_bits, distance}

abbrev xor_digits : ℕ → ℕ → ℕ → ℕ
xor_digits = digits (λ b. b) differ

differ-le-one : (x y : ℕ) → x < 2 → y < 2 → (differ x y ≤ 1) × (differ x y ≡ 0 → x ≡ y)
differ-le-one zero zero h k = (omega arith, λ e. refl)
differ-le-one zero (suc zero) h k = (omega arith, λ e. cc)
differ-le-one (suc zero) zero h k = (omega arith, λ e. cc)
differ-le-one (suc zero) (suc zero) h k = (omega arith, λ e. refl)
differ-le-one _ _ h k = absurd (omega arith)

-- The exclusive or of two numbers of `k` bits has `k` bits.
xor_digits-lt : (n k a b : ℕ) → a < 2 ^ k → b < 2 ^ k → xor_digits n a b < 2 ^ k
xor_digits-lt zero k a b h g = g
xor_digits-lt (suc n) k zero b h g = g
xor_digits-lt (suc n) zero (suc a) b h g = absurd (omega arith)
xor_digits-lt (suc n) (suc k) (suc a) b h g = omega (
  arith,
  pow-suc 2 k,
  differ-le-one (suc a % 2) (b % 2) (omega arith) (omega arith),
  xor_digits-lt n k (suc a / 2) (b / 2) (omega (arith, pow-suc 2 k)) (omega (arith, pow-suc 2 k)),
)

xor_digits-zero : (n a b : ℕ) → a ≤ n → xor_digits n a b ≡ 0 → a ≡ b
xor_digits-zero zero zero b h e = sym e
xor_digits-zero zero (suc a) b h e = absurd (omega arith)
xor_digits-zero (suc n) zero b h e = sym e
xor_digits-zero (suc n) (suc a) b h e =
    let (low, same) = differ-le-one (suc a % 2) (b % 2) (omega arith) (omega arith) in
    let rest = xor_digits-zero n (suc a / 2) (b / 2) (omega arith) (omega arith) in
    let last = same (omega arith) in omega arith

pub distance-lt : (a b k : ℕ) → a < 2 ^ k → b < 2 ^ k → bit_xor a b < 2 ^ k
distance-lt a b k h g = rw bit_xor-bitwise (xor_digits-lt a k a b h g)

pub distance-zero : (a b : ℕ) → bit_xor a b ≡ 0 → a ≡ b
distance-zero a b e = xor_digits-zero a a b (omega arith) (sym (bit_xor-bitwise a b) ∙ e)

bits-zero : (fuel : ℕ) → bits fuel 0 ≡ 0
unfolding bits
bits-zero zero = refl
bits-zero (suc fuel) = refl

-- `bits` is the exponent of the first power of two above a number.
bits_lem :
    (fuel n : ℕ)
    → n ≤ fuel
    → (n < 2 ^ bits fuel n) × (0 < n → 2 ^ bits fuel n ≤ 2 * n) × (0 < n → 0 < bits fuel n)
unfolding bits
bits_lem zero n h = (omega arith, omega arith, omega arith)
bits_lem (suc fuel) zero h = (omega arith, omega arith, omega arith)
bits_lem (suc fuel) (suc zero) h = rw bits-zero (omega arith, omega arith, omega arith)
bits_lem (suc fuel) (suc (suc n)) h =
    let (up, low, pos) = bits_lem fuel (suc (suc n) / 2) (omega arith) in
    let nz : (suc (suc n) == 0) ≡ false = ground arith in
    let twice = pow-suc 2 (bits fuel (suc (suc n) / 2)) in
    let low' = low (omega arith) in rw nz (omega arith, omega arith, omega arith)

bits-le : (fuel n k : ℕ) → n < 2 ^ k → bits fuel n ≤ k
unfolding bits
bits-le zero n k h = omega arith
bits-le (suc fuel) n zero h = let z : (n == 0) ≡ true = ground arith in rw z (omega arith)
bits-le (suc fuel) n (suc k) h = ground (arith, bits-le fuel (n / 2) k (omega (arith, pow-suc 2 k)))

-- Two positions below 2^256 that differ have a bucket among the 256, and it is the position of the
-- highest bit in which they differ: their distance is at least 2^i and below 2^(i+1).
pub bucket_index-distance :
    (own other : ℕ)
    → own < 2 ^ id_bits
    → other < 2 ^ id_bits
    → own ≢ other
    → (i : ℕ) × (bucket_index own other ≡ some i)
      × (i < id_bits)
      × (2 ^ i ≤ distance own other)
      × (distance own other < 2 ^ (i + 1))
unfolding bucket_index bit_length distance
bucket_index-distance own other h g ne =
    let d = bit_xor own other in
    let pos : 0 < d = omega (arith, λ (e : d ≡ 0). ne (distance-zero own other e)) in
    let nz : (d == 0) ≡ false = ground arith in
    let (up, low, some_bit) = bits_lem d d (omega arith) in
    let low' = low pos in
    let some_bit' = some_bit pos in
    let below = bits-le d d id_bits (distance-lt own other id_bits h g) in
    let e : bits d d ≡ suc (bits d d - 1) = omega arith in
    let half = pow-suc 2 (bits d d - 1) in
    let e' : bits d d - 1 + 1 ≡ bits d d = omega arith in
    (bits d d - 1, rw nz refl, omega arith, omega (arith, ap (λ (t : ℕ). 2 ^ t) e), rw e' up)
