-- ===== src/Dht/Ids.antt =====
-- commonnet/dht/ids.py: positions are numbers below 2^256, compared by the XOR of their bits.
-- The hash that derives them is a parameter of its users.
pub mod Range
use common_network.Prelude.{
  ℕ, zero, suc, ◌+◌, ◌-◌, ◌/◌, ◌^◌, ◌<◌, ◌≡◌, refl, Option, none, some, bit_xor, if◌then◌else◌,
  ◌==◌, number_eq,
}

abbrev pub id_bits : ℕ
id_bits = 256

unfoldable pub distance : ℕ → ℕ → ℕ
distance a b = bit_xor a b

-- `int.bit_length`, by halving; `n` rounds are enough for `n`.
unfoldable pub bits : ℕ → ℕ → ℕ
bits zero n = 0
bits (suc fuel) n = let rest = suc (bits fuel (n / 2)) in if n == 0 then 0 else rest

unfoldable pub bit_length : ℕ → ℕ
unfolding bits
bit_length n = bits n n

-- The position of the highest bit that differs; `none` is the `ValueError` for a node itself.
unfoldable pub bucket_index : ℕ → ℕ → Option ℕ
unfolding bit_length
bucket_index own other =
    let d = bit_xor own other in if d == 0 then none else some (bit_length d - 1)
