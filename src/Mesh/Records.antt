-- ===== src/Mesh/Records.antt =====
-- commonnet/mesh/records.py: the fields of a record that its users read, after `check_shape`.
-- Times are natural numbers. The check of a signature is a parameter of the users.
pub mod Shape
use common_network.Prelude.{
  ℕ, ◌+◌, String, Option, Bool, false, ◌&&◌, not, ◌==◌, text_eq, ltb, if◌then◌else◌,
}

abbrev pub live_seconds : ℕ
live_seconds = 60

abbrev pub future_skew_seconds : ℕ
future_skew_seconds = 120

pub record PeerRecord : Type 0 where
  pub peer : String
  pub network : String
  pub url : Option String
  pub window : Option (ℕ × ℕ)
  pub backend : String
  pub state : String
  pub gib : ℕ
  pub speed : ℕ
  pub seq : ℕ
  pub ts : ℕ

-- `now - ts > age`
abbrev pub older_than : ℕ → ℕ → PeerRecord → Bool
older_than age now r = ltb (r.ts + age) now

-- `ts > now + FUTURE_SKEW_SECONDS`
abbrev pub from_future : ℕ → PeerRecord → Bool
from_future now r = ltb (now + future_skew_seconds) r.ts

-- The network is given in every call that is modelled.
unfoldable pub is_live : PeerRecord → ℕ → String → Bool
is_live r now network =
    if not (r.state == "up")
    then false
    else if not (r.network == network)
    then false
    else not (older_than live_seconds now r) && not (from_future now r)
