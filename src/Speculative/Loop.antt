-- ===== src/Speculative/Loop.antt =====
-- commonnet/speculative.py `speculative_stream`: a drafter proposes tokens and one trip checks them.
-- The drafter is a parameter with a state of its own. Of `chain_step` (commonnet/net/transport.py)
-- the checks of the ids are modelled. Timing is not modelled, and neither is the
-- opening and closing of the session at the ends of the stream.
use common_network.Prelude.{
  ℕ, zero, suc, ◌+◌, ◌-◌, ◌*◌, ◌/◌, List, [], ◌∷◌, ◌++◌, length, take, Bool, true, false, ◌&&◌, not,
  if◌then◌else◌, ◌==◌, number_eq, ltb, min, max, leb, all, ◌^◌,
}
use common_network.Speculative.Session.{
  empty_prompt, bad_k, bad_chain_ids, batch_too_long, Result, ok, err, ◌>>=◌, ◌>>◌, forward,
  truncate,
}
use common_network.Speculative.Verify.{verify}
use common_network.Speculative.Plain.{End, finished, failed, out_of_fuel, Stream, prepend, trip}

-- The counters of `SpecStats`.
pub record SpecStats : Type 0 where
  pub rounds : ℕ
  pub drafted : ℕ
  pub accepted : ℕ
  pub emitted : ℕ
  pub k_used : List ℕ

abbrev pub no_stats : SpecStats
no_stats = record { rounds = 0; drafted = 0; accepted = 0; emitted = 0; k_used = [] }

-- The local variables at the head of the `while` loop, with the session of the route.
pub record State (D : Type 0) : Type 0 where
  pub held : List ℕ
  pub last : ℕ
  pub pos : ℕ
  pub context : List ℕ
  pub produced : ℕ
  pub cur_k : ℕ
  pub drafter : D
  pub stats : SpecStats

-- A round ends the stream, or yields tokens and goes on.
pub data Outcome (D : Type 0) : Type 0 where
  ended : List ℕ → End → SpecStats → Outcome D
  continued : List ℕ → State D → Outcome D

-- What the loop over the accepted drafts leaves.
pub record Emitted : Type 0 where
  pub out : List ℕ
  pub done : Bool
  pub produced : ℕ
  pub context : List ℕ

abbrev pub emit_first : ℕ → Emitted → Emitted
emit_first d e = record e { out = d ∷ e.out }

-- `m / n < ADAPT_LOW` with `ADAPT_LOW = 0.3`, without the division
abbrev pub below_adapt_low : ℕ → ℕ → Bool
below_adapt_low m n = ltb (10 * m) (3 * n)

-- How many tokens to draft next, after `m` of `n` drafts were accepted.
unfoldable pub adapt : Bool → ℕ → ℕ → ℕ → ℕ → ℕ
adapt adaptive k cur_k m n =
    if not adaptive
    then cur_k
    else if not (n == 0) && below_adapt_low m n
    then max 1 (cur_k / 2)
    else if m == n
    then min k (if ltb cur_k k then cur_k * 2 else k)
    else cur_k

abbrev pub count_emitted : SpecStats → ℕ → SpecStats
count_emitted s n = record s { emitted = s.emitted + n }

abbrev pub stopped : End → Stream × SpecStats
stopped e = (record { tokens = []; end = e }, no_stats)

-- The counters after a trip that accepted `m` of `drafts`.
unfoldable pub count_round : SpecStats → List ℕ → ℕ → SpecStats
count_round s drafts m = record s {
  rounds = s.rounds + 1;
  drafted = s.drafted + length drafts;
  accepted = s.accepted + m;
  k_used = s.k_used ++ length drafts ∷ [];
}

abbrev pub max_token_id : ℕ
max_token_id = 2 ^ 32 - 1

-- The ids that one request of a chain takes, by the bytes of 4096 floats for each.
unfoldable pub chain_chunk : ℕ → ℕ
chain_chunk max_request_bytes = min 256 (max 1 ((max_request_bytes - 4096) / 21845))

-- `ids`, over natural numbers that are not none
unfoldable pub are_chain_ids : List ℕ → Bool
are_chain_ids tokens = leb (length tokens) 4096 && all (λ t. leb t max_token_id) tokens

-- What `chain_step` checks of the ids, and of the drafts among them, before it sends them.
unfoldable pub check_chain : Bool → ℕ → Bool → List ℕ → Result (Unit {0})
check_chain use_chain max_request_bytes has_drafts tokens =
    if not use_chain
    then ok tt
    else if not (are_chain_ids tokens)
    then err bad_chain_ids
    else if has_drafts && ltb (chain_chunk max_request_bytes) (length tokens)
    then err batch_too_long
    else ok tt

module _ {D : Type 0} (greedy : List ℕ → ℕ) (stop : ℕ → Bool)
    (propose : D → List ℕ → ℕ → List ℕ × D) (use_chain has_other_layers : Bool)
    (max_request_bytes vocab_size : ℕ) (adaptive : Bool) (k max_new : ℕ) where
  -- `for d in drafts[:m]`
  unfoldable pub emit : List ℕ → ℕ → List ℕ → Emitted
  emit [] produced context = record {
    out = [];
    done = false;
    produced = produced;
    context = context;
  }
  emit (d ∷ ds) produced context =
      let rest = emit ds (produced + 1) (context ++ d ∷ []) in
      if stop d
      then record { out = []; done = true; produced = produced; context = context }
      else if produced + 1 == max_new
      then record {
        out = d ∷ [];
        done = true;
        produced = produced + 1;
        context = context ++ d ∷ [];
      }
      else emit_first d rest

  -- What follows the roll-back: adapt, and yield the accepted drafts.
  unfoldable pub yield_drafts : State D → List ℕ → ℕ → ℕ → List ℕ → Outcome D
  yield_drafts s drafts m next held =
      let e = emit (take m drafts) s.produced s.context in
      let stats = count_emitted (count_round s.stats drafts m) (length e.out) in
      if e.done
      then ended (s.last ∷ e.out) finished stats
      else continued (s.last ∷ e.out) (record s {
        held = held;
        last = next;
        pos = s.pos + (1 + m);
        context = e.context;
        produced = e.produced;
        cur_k = adapt adaptive k s.cur_k m (length drafts);
        stats = stats;
      })

  -- What follows the trip: roll the session back to the accepted drafts, which a block with other
  -- layers than attention refuses, and go on. The cut is made at once, as the local front makes it;
  -- a deferred one reaches a server ahead of the tokens of the next step.
  unfoldable pub settle : State D → List ℕ → List ℕ → ℕ → ℕ → Outcome D
  settle s drafts held m next =
      let rolled =
        if ltb m (length drafts) then truncate has_other_layers held (s.pos + 1 + m) else ok held in
      elim rolled [
        | err e ↦ ended (s.last ∷ []) (failed e) (count_round s.stats drafts m)
        | ok held' ↦ yield_drafts s drafts m next held'
      ]

  -- The trip with the drafts behind `last`, and the check of what it returns.
  unfoldable pub verified_trip : State D → List ℕ → Result (List ℕ × ℕ × ℕ)
  verified_trip s drafts = do
    check_chain use_chain max_request_bytes true (s.last ∷ drafts)
    (out, held) ← forward greedy s.held (s.last ∷ drafts) s.pos
    (m, next) ← verify use_chain vocab_size drafts out
    ok (held, m, next)

  -- The drafts go through the route behind `last`.
  unfoldable pub check_drafts : State D → List ℕ → Outcome D
  check_drafts s drafts = elim (verified_trip s drafts) [
    | err e ↦ ended (s.last ∷ []) (failed e) s.stats
    | ok (held, m, next) ↦ settle s drafts held m next
  ]

  -- `last` is yielded, and the drafter proposes never past the end.
  abbrev pub draft : State D → State D × List ℕ
  draft s =
      let produced = s.produced + 1 in
      let context = s.context ++ s.last ∷ [] in
      let want = min s.cur_k (max_new - produced) in
      let (proposed, drafter) = propose s.drafter context want in
      (
        record s {
          context = context;
          produced = produced;
          drafter = drafter;
          stats = count_emitted s.stats 1;
        },
        take want proposed,
      )

  -- One round of `while True`.
  unfoldable pub round : State D → Outcome D
  round s =
      let (s', drafts) = draft s in
      if stop s.last
      then ended [] finished s.stats
      else if s.produced + 1 == max_new
      then ended (s.last ∷ []) finished (count_emitted s.stats 1)
      else check_drafts s' drafts

  -- The loop; each round that goes on yields a token.
  unfoldable pub spec_loop : ℕ → State D → Stream × SpecStats
  spec_loop zero s = (record { tokens = []; end = out_of_fuel }, s.stats)
  spec_loop (suc fuel) s = elim (round s) [
    | ended ts e stats ↦ (record { tokens = ts; end = e }, stats)
    | continued ts s' ↦ let (rest, stats) = spec_loop fuel s' in (prepend ts rest, stats)
  ]

  -- The first trip feeds the prompt and gives the first token.
  unfoldable pub start : D → List ℕ → Result (State D)
  start d prompt = do
    check_chain use_chain max_request_bytes false prompt
    (last, held) ← trip greedy [] prompt 0
    ok (record {
      held = held;
      last = last;
      pos = length prompt;
      context = prompt;
      produced = 0;
      cur_k = k;
      drafter = d;
      stats = no_stats;
    })

  -- `max_new` rounds of fuel do.
  unfoldable pub speculative_stream : D → List ℕ → Stream × SpecStats
  speculative_stream d [] = stopped (failed empty_prompt)
  speculative_stream d (t ∷ ts) =
      if ltb k 1
      then stopped (failed bad_k)
      else if ltb max_new 1
      then stopped finished
      else elim (start d (t ∷ ts)) [ err e ↦ stopped (failed e) | ok s ↦ spec_loop max_new s ]
