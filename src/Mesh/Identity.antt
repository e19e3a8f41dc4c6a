-- ===== src/Mesh/Identity.antt =====
-- commonnet/mesh/records.py: the sequence numbers that an `Identity` gives the records it signs.
-- The time is given in milliseconds, `int(now * 1000)`; the keys and signatures are not modelled.
pub mod Rising
mod Tests
use common_network.Prelude.{ℕ, ◌+◌, max, List, [], ◌∷◌, Option, none, some}

pub record Identity : Type 0 where
  pub last_seq : ℕ

-- The caller's number, or one above all that were given and not below the time.
abbrev pub chosen : Identity → Option ℕ → ℕ → ℕ
chosen i none now_ms = max now_ms (i.last_seq + 1)
chosen i (some seq) now_ms = seq

unfoldable pub next_seq : Identity → Option ℕ → ℕ → Identity × ℕ
next_seq i given now_ms =
    let seq = chosen i given now_ms in (record i { last_seq = max i.last_seq seq }, seq)

-- Records that are signed one after the other, each with the number that its caller gives and its time.
unfoldable pub sign_all : Identity → List (Option ℕ × ℕ) → Identity × List ℕ
sign_all i [] = (i, [])
sign_all i ((given, now_ms) ∷ rest) =
    let (i', seq) = next_seq i given now_ms in
    let (i'', seqs) = sign_all i' rest in (i'', seq ∷ seqs)
