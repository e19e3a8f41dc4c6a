-- ===== src/Speculative/Plain.antt =====
-- commonnet/client.py `generate_stream` at temperature 0: one token for each trip.
use common_network.Prelude.{
  ℕ, zero, suc, ◌+◌, List, [], ◌∷◌, ◌++◌, length, Bool, if◌then◌else◌, ◌==◌, number_eq, ltb,
}
use common_network.Speculative.Session.{
  StepError, index_error, empty_prompt, Result, ok, err, ◌>>=◌, forward,
}

-- How a stream ends. The last constructor cannot arise with enough fuel.
pub data End : Type 0 where
  finished : End
  failed : StepError → End
  out_of_fuel : End

-- The tokens that a stream yields, and its end.
pub record Stream : Type 0 where
  pub tokens : List ℕ
  pub end : End

abbrev pub prepend : List ℕ → Stream → Stream
prepend ts s = record { tokens = ts ++ s.tokens; end = s.end }

-- `ids[-1]`
abbrev pub last_of : List ℕ → Result ℕ
last_of [] = err index_error
last_of (x ∷ []) = ok x
last_of (x ∷ y ∷ ys) = last_of (y ∷ ys)

module _ (greedy : List ℕ → ℕ) where
  -- One trip: the next token, and the session that is held.
  unfoldable pub trip : List ℕ → List ℕ → ℕ → Result (ℕ × List ℕ)
  trip held tokens pos = do
    (out, held') ← forward greedy held tokens pos
    next ← last_of out
    ok (next, held')

module _ (greedy : List ℕ → ℕ) (stop : ℕ → Bool) where
  -- `while True` with `produced` tokens yielded so far
  unfoldable pub plain_loop : ℕ → ℕ → ℕ → List ℕ → List ℕ → ℕ → Stream
  unfolding trip
  plain_loop zero max_new produced held tokens pos = record { tokens = []; end = out_of_fuel }
  plain_loop (suc fuel) max_new produced held tokens pos = elim (trip greedy held tokens pos) [
    | err e ↦ record { tokens = []; end = failed e }
    | ok (next, held') ↦
        let rest = plain_loop fuel max_new (produced + 1) held' (next ∷ []) (pos + length tokens) in
        if stop next
        then record { tokens = []; end = finished }
        else if produced + 1 == max_new
        then record { tokens = next ∷ []; end = finished }
        else prepend (next ∷ []) rest
  ]

  -- Each round yields a token, so `max_new` rounds of fuel do.
  unfoldable pub generate_stream : List ℕ → ℕ → Stream
  generate_stream [] max_new = record { tokens = []; end = failed empty_prompt }
  generate_stream (t ∷ ts) max_new =
      if ltb max_new 1
      then record { tokens = []; end = finished }
      else plain_loop max_new max_new 0 [] (t ∷ ts) 0
