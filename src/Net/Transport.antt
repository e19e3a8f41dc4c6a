-- ===== src/Net/Transport.antt =====
-- commonnet/net/transport.py: `HttpTransport` for one endpoint and one session, with its failover between
-- servers. What happens to a call is read from a list of fates, one to a call. The clock stands still within
-- a call of the transport. The lookup of further servers (`on_exhausted`), deferred cuts, chain sessions and
-- the local front are left out. A call of `forward` has at least one position.
pub mod Replay
pub mod Failover
pub mod Send
pub mod Forward
pub mod Cut
mod Tests
use common_network.Prelude.{
  ℕ, zero, suc, ◌+◌, ◌%◌, List, [], ◌∷◌, ◌++◌, length, take, drop, Option, none, some, Bool, true,
  false, ◌&&◌, ◌||◌, not, ◌==◌, number_eq, ltb, leb, ◌-◌, if◌then◌else◌,
}
use common_network.Prelude.Dict.{Dict, lookup, insert}
use common_network.Speculative.Session.{StepError}
use common_network.Net.Server
use common_network.Net.Server.{Step, Slot, Reply, answer, unknown, refused}

abbrev pub dead_seconds : ℕ
dead_seconds = 60

-- The call arrives and is answered; it does not arrive; its reply is lost; the server has started anew.
pub data Fate : Type 0 where
  fine : Fate
  no_answer : Fate
  reply_lost : Fate
  restarted : Fate

-- The servers' sessions, and what happens to the calls to come; those after the list arrive.
pub record World : Type 0 where
  pub slots : ℕ → Slot
  pub fates : List Fate

-- `Unreachable`, and `RemoteError` with 404 or another status
pub data Failure : Type 0 where
  unreachable : Failure
  lost_session : Failure
  remote : StepError → Failure

pub data Outcome : Type 0 where
  done : List ℕ → Outcome
  failed : Failure → Outcome

abbrev pub set_slot : ℕ → Slot → (ℕ → Slot) → ℕ → Slot
set_slot i slot slots j = if j == i then slot else slots j

abbrev pub called : ℕ → Slot × Outcome → (ℕ → Slot) → List Fate → World × Outcome
called i r slots fates = (record { slots = set_slot i r.0 slots; fates = fates }, r.1)

-- One call of a server: what it does to its session and answers
abbrev pub call_with : ℕ → (Slot → Slot × Outcome) → (ℕ → Slot) → List Fate → World × Outcome
call_with i run slots [] = called i (run (slots i)) slots []
call_with i run slots (fine ∷ fates) = called i (run (slots i)) slots fates
call_with i run slots (no_answer ∷ fates) =
    (record { slots = slots; fates = fates }, failed unreachable)
call_with i run slots (reply_lost ∷ fates) =
    called i ((run (slots i)).0, failed unreachable) slots fates
call_with i run slots (restarted ∷ fates) = called i (run none) slots fates

abbrev pub call : ℕ → (Slot → Slot × Outcome) → World → World × Outcome
call i run w = call_with i run w.slots w.fates

abbrev pub outcome_of : Reply → Outcome
outcome_of (answer out) = done out
outcome_of unknown = failed lost_session
outcome_of (refused e) = failed (remote e)

pub record Transport : Type 0 where
  -- `len(self._candidates(name))`
  pub count : ℕ
  -- whether the session is in `self._open`
  pub is_open : Bool
  pub active : ℕ
  pub history : List (ℕ × List ℕ)
  pub dead : Dict ℕ ℕ
  pub failovers : List (ℕ × ℕ)

abbrev pub is_none : Option Failure → Bool
is_none none = true
is_none (some e) = false

-- `died is None or now - died > DEAD_SECONDS`
abbrev pub alive_since : ℕ → Option ℕ → Bool
alive_since now none = true
alive_since now (some died) = ltb (died + dead_seconds) now

abbrev pub alive : ℕ → Transport → ℕ → Bool
alive now t i = alive_since now (lookup i t.dead)

unfoldable pub first_alive : ℕ → Transport → ℕ → ℕ → ℕ
first_alive now t i zero = 0
first_alive now t i (suc n) =
    let rest = first_alive now t (suc i) n in if alive now t i then i else rest

abbrev pub open_slot : Slot → Slot × Outcome
open_slot slot = (Server.open_session slot, done [])

abbrev pub bury : ℕ → ℕ → Transport → Transport
bury now i t = record t { dead = insert i now t.dead }

pub record Tried : Type 0 where
  pub transport : Transport
  pub world : World
  -- the last error, or none where a server holds the session
  pub error : Option Failure

-- What `_send` returns or raises; `stuck` is where the fuel runs out.
pub data Sent : Type 0 where
  sent : Transport → World → List ℕ → Sent
  raised : Transport → World → Failure → Sent
  stuck : Sent

module _ (greedy : List ℕ → ℕ) where
  unfoldable pub forward_slot : Step → Slot → Slot × Outcome
  forward_slot step slot = let r = Server.forward greedy slot step in (r.0, outcome_of r.1)

  abbrev pub piece : ℕ → List ℕ → Step
  piece start_pos tokens = record { tokens = tokens; start_pos = start_pos; truncate_to = none }

  abbrev pub and_then : World × Outcome → (World → World × Outcome) → World × Outcome
  and_then (w, failed e) f = (w, failed e)
  and_then (w, done out) f = f w

  -- The pieces of the history, one after the other, up to the first failure
  unfoldable pub replay : ℕ → List (ℕ × List ℕ) → World → World × Outcome
  replay i [] w = (w, done [])
  replay i ((start_pos, tokens) ∷ pieces) w =
      and_then (call i (forward_slot (piece start_pos tokens)) w) (λ v. replay i pieces v)

  -- The body of the loop of `_try_candidates`, after the test of `_alive`
  abbrev pub replayed : ℕ → ℕ → Transport → World × Outcome → Tried
  replayed now i t (w, failed e) = record { transport = bury now i t; world = w; error = some e }
  replayed now i t (w, done out) = record { transport = t; world = w; error = none }

  abbrev pub started : ℕ → ℕ → Transport → World × Outcome → Tried
  started now i t (w, failed e) = record { transport = bury now i t; world = w; error = some e }
  started now i t (w, done out) = replayed now i (record t { active = i }) (replay i t.history w)

  unfoldable pub try_one : ℕ → ℕ → Transport → World → Tried
  try_one now i t w = started now i t (call i open_slot w)

  -- The loop of `_try_candidates` over the servers that are left
  abbrev pub next_or :
      ℕ → ℕ → Transport → World → Option Failure → (Transport → World → Failure → Tried) → Tried
  next_or gone i t w none next = record {
    transport = record t { failovers = t.failovers ++ ((gone, i) ∷ []) };
    world = w;
    error = none;
  }
  next_or gone i t w (some e) next = next t w e

  unfoldable pub try_all : ℕ → ℕ → List ℕ → Transport → World → Failure → Tried
  try_all now gone [] t w e = record { transport = t; world = w; error = some e }
  try_all now gone (i ∷ is) t w e =
      let rest = try_all now gone is t w e in
      let r = try_one now i t w in
      if not (i == gone) && not (alive now t i)
      then rest
      else next_or gone i r.transport r.world r.error (λ u v f. try_all now gone is u v f)

  -- `(failed + step) % count for step in range(1, count + 1)`, for so many steps from one on
  abbrev pub others_from : ℕ → ℕ → ℕ → ℕ → List ℕ
  others_from gone count step zero = []
  others_from gone count step (suc n) =
      ((gone + step) % count) ∷ others_from gone count (suc step) n

  unfoldable pub recover : ℕ → ℕ → Failure → Transport → World → Tried
  recover now gone e t w =
      try_all now gone (others_from gone t.count 1 t.count) (bury now gone t) w e

  abbrev pub is_fatal : ℕ → Failure → Bool
  is_fatal count (remote e) = true
  is_fatal count lost_session = ltb count 2
  is_fatal count unreachable = ltb count 2

  abbrev pub again_with : Transport → World → Option Failure → (Transport → World → Sent) → Sent
  again_with t w none again = again t w
  again_with t w (some e) again = raised t w e

  abbrev pub sent_or : ℕ → Transport → World × Outcome → (Transport → World → Sent) → Sent
  sent_or now t (w, done out) again = sent t w out
  sent_or now t (w, failed e) again =
      let r = recover now t.active e t w in
      if is_fatal t.count e then raised t w e else again_with r.transport r.world r.error again

  -- The loop of `_send`
  unfoldable pub send : ℕ → ℕ → Step → Transport → World → Sent
  send now zero step t w = stuck
  send now (suc fuel) step t w =
      sent_or now t (call t.active (forward_slot step) w) (λ u v. send now fuel step u v)

  abbrev pub opened : Tried → Tried
  opened r = record r { transport = record r.transport { is_open = true } }

  -- An answer with an error status is of a live server, so only `Unreachable` makes it look for another.
  abbrev pub open_or : ℕ → ℕ → Transport → World × Outcome → Tried
  open_or now i t (w, done out) =
      opened (record { transport = record t { active = i }; world = w; error = none })
  open_or now i t (w, failed unreachable) =
      if ltb t.count 2
      then record { transport = t; world = w; error = some unreachable }
      else mark (recover now i unreachable t w)
    where
      mark : Tried → Tried
      mark r = if is_none r.error then opened r else r
  open_or now i t (w, failed e) = record { transport = t; world = w; error = some e }

  -- The first part of `forward`
  unfoldable pub ensure_open : ℕ → Transport → World → Tried
  ensure_open now t w =
      let i = first_alive now t 0 t.count in
      if t.is_open
      then record { transport = t; world = w; error = none }
      else open_or now i t (call i open_slot w)

  -- The piece is kept for a replay where there is another server.
  abbrev pub remember : ℕ → List ℕ → Transport → Transport
  remember start_pos tokens t =
      if ltb 1 t.count then record t { history = t.history ++ ((start_pos, tokens) ∷ []) } else t

  abbrev pub sent_then : Sent → (Transport → World → List ℕ → Sent) → Sent
  sent_then (sent t w out) next = next t w out
  sent_then (raised t w e) next = raised t w e
  sent_then stuck next = stuck

  -- The loop of `forward` over the pieces, with the replies so far
  unfoldable pub send_pieces : ℕ → ℕ → List (List ℕ) → Transport → World → List ℕ → Sent
  send_pieces now start_pos [] t w outs = sent t w outs
  send_pieces now start_pos (tokens ∷ pieces) t w outs =
      sent_then (send now (suc (length w.fates)) (piece start_pos tokens) t w) (λ u v out.
        send_pieces now (start_pos + length tokens) pieces (remember start_pos tokens u) v
          (outs ++ out))

  -- `range(0, seq, chunk)`, on as much fuel as there are positions
  unfoldable pub pieces_of : ℕ → ℕ → List ℕ → List (List ℕ)
  pieces_of chunk fuel [] = []
  pieces_of chunk zero (x ∷ xs) = []
  pieces_of chunk (suc fuel) (x ∷ xs) =
      take chunk (x ∷ xs) ∷ pieces_of chunk fuel (drop chunk (x ∷ xs))

  abbrev pub forward_opened : ℕ → ℕ → ℕ → List ℕ → Transport → World → Option Failure → Sent
  forward_opened now chunk start_pos tokens t w (some e) = raised t w e
  forward_opened now chunk start_pos tokens t w none =
      send_pieces now start_pos (pieces_of chunk (length tokens) tokens) t w []

  -- `chunk` is how many positions fit in one request, at least one.
  unfoldable pub forward : ℕ → ℕ → ℕ → List ℕ → Transport → World → Sent
  forward now chunk start_pos tokens t w =
      let r = ensure_open now t w in
      forward_opened now chunk start_pos tokens r.transport r.world r.error

  abbrev pub close_slot : Slot → Slot × Outcome
  close_slot slot = (Server.close slot, done [])

  -- The server is told as far as it can be reached.
  unfoldable pub close : Transport → World → Transport × World
  close t w =
      if t.is_open
      then (record t { is_open = false; active = 0; history = [] }, (call t.active close_slot w).0)
      else (t, w)

  -- The pieces of a history, cut to the first positions; a piece may be cut in the middle.
  unfoldable pub cut_history : ℕ → List (ℕ × List ℕ) → List (ℕ × List ℕ)
  cut_history n [] = []
  cut_history n ((start_pos, tokens) ∷ pieces) =
      let rest = cut_history n pieces in
      if leb n start_pos
      then rest
      else if ltb n (start_pos + length tokens)
      then (start_pos, take (n - start_pos) tokens) ∷ rest
      else (start_pos, tokens) ∷ rest

  abbrev pub cut_reply : Slot → Option Slot → Slot × Outcome
  cut_reply slot none = (slot, failed lost_session)
  cut_reply slot (some cut) = (cut, done [])

  abbrev pub truncate_slot : ℕ → Slot → Slot × Outcome
  truncate_slot n slot = cut_reply slot (Server.truncate slot n)

  -- A server that takes over has the history that is cut already: there is nothing more to cut.
  abbrev pub cut_or : ℕ → Transport → World × Outcome → Tried
  cut_or now t (w, done out) = record { transport = t; world = w; error = none }
  cut_or now t (w, failed e) =
      if is_fatal t.count e
      then record { transport = t; world = w; error = some e }
      else recover now t.active e t w

  -- `truncate` that is not deferred
  unfoldable pub truncate : ℕ → ℕ → Transport → World → Tried
  truncate now n t w =
      let cut = record t { history = cut_history n t.history } in
      if t.is_open
      then cut_or now cut (call cut.active (truncate_slot n) w)
      else record { transport = t; world = w; error = none }
