-- ===== src/Net/Server.antt =====
-- commonnet/net/server.py: the sessions of a `BlockServer`, with the saved reply of the last step.
-- A step's input stands for its positions; the block is commonnet/block.py, see Speculative/Session.
-- The timings and the network's share of them are left out.
pub mod Saved
pub mod Holds
mod Tests
use common_network.Prelude.{
  ℕ, List, [], ◌∷◌, Option, none, some, Bool, true, false, ◌&&◌, ◌==◌, number_eq, if◌then◌else◌,
}
use common_network.Speculative.Session.{Result, ok, err, StepError}
use common_network.Speculative.Session

pub record Step : Type 0 where
  pub tokens : List ℕ
  pub start_pos : ℕ
  pub truncate_to : Option ℕ

-- What the block holds for the session, and the last step with its reply
pub record Held : Type 0 where
  pub tokens : List ℕ
  pub last : Option (Step × List ℕ)

-- A session that is open, or none.
abbrev pub Slot : Type 0
Slot = Option Held

-- `unknown` is `UnknownSession`, which is answered with 404.
pub data Reply : Type 0 where
  answer : List ℕ → Reply
  unknown : Reply
  refused : StepError → Reply

abbrev pub same_tokens : List ℕ → List ℕ → Bool
same_tokens [] [] = true
same_tokens [] (y ∷ ys) = false
same_tokens (x ∷ xs) [] = false
same_tokens (x ∷ xs) (y ∷ ys) = x == y && same_tokens xs ys

abbrev pub same_cut : Option ℕ → Option ℕ → Bool
same_cut none none = true
same_cut none (some n) = false
same_cut (some m) none = false
same_cut (some m) (some n) = m == n

abbrev pub same_step : Step → Step → Bool
same_step s t =
    same_tokens s.tokens t.tokens
    && s.start_pos == t.start_pos
    && same_cut s.truncate_to t.truncate_to

-- The saved reply where the step is the last one again
abbrev pub saved_for : Step → Option (Step × List ℕ) → Option (List ℕ)
saved_for step none = none
saved_for step (some (s, out)) = if same_step s step then some out else none

unfoldable pub open_session : Slot → Slot
open_session none = some (record { tokens = []; last = none })
open_session (some h) = some h

unfoldable pub close : Slot → Slot
close h = none

abbrev pub cut_to : Option ℕ → List ℕ → List ℕ
cut_to none held = held
cut_to (some n) held = Session.cut_back held n

-- `none` is `UnknownSession`.
unfoldable pub truncate : Slot → ℕ → Option Slot
truncate none n = none
truncate (some h) n = some (some (record { tokens = Session.cut_back h.tokens n; last = none }))

module _ (greedy : List ℕ → ℕ) where
  -- A step that the block refuses has cut the session already.
  abbrev pub run_step : Step → Held → Result (List ℕ × List ℕ) → Slot × Reply
  run_step step h (ok (out, tokens)) =
      (some (record { tokens = tokens; last = some (step, out) }), answer out)
  run_step step h (err e) =
      (some (record h { tokens = cut_to step.truncate_to h.tokens }), refused e)

  abbrev pub forward_new : Step → Held → Option (List ℕ) → Slot × Reply
  forward_new step h (some out) = (some h, answer out)
  forward_new step h none =
      run_step step h
        (Session.forward greedy (cut_to step.truncate_to h.tokens) step.tokens step.start_pos)

  unfoldable pub forward : Slot → Step → Slot × Reply
  forward none step = (none, unknown)
  forward (some h) step = forward_new step h (saved_for step h.last)
