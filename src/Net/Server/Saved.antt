-- ===== src/Net/Server/Saved.antt =====
-- commonnet/net/server.py: a step that is sent again, and what the session holds after a step.
use common_network.Prelude.{
  ℕ, ◌≡◌, ◌≢◌, refl, sym, ap, List, [], ◌∷◌, Option, none, some, Bool, true, false, number_eq,
  arith,
}
use mathlib.Core.Path.{subst}
use mathlib.Core.Bool.{false≢true}
use common_network.Speculative.Session.{ok, err}
use common_network.Speculative.Session
use common_network.Net.Server
use common_network.Net.Server.{
  Step, Held, Slot, Reply, answer, unknown, refused, same_tokens, same_step, saved_for,
}

same_tokens_refl : (xs : List ℕ) → same_tokens xs xs ≡ true
same_tokens_refl [] = refl
same_tokens_refl (x ∷ xs) = ground (arith, same_tokens_refl xs)

pub same_tokens-eq : (xs ys : List ℕ) → same_tokens xs ys ≡ true → xs ≡ ys
same_tokens-eq [] [] h = refl
same_tokens-eq [] (y ∷ ys) h = cc
same_tokens-eq (x ∷ xs) [] h = cc
same_tokens-eq (x ∷ xs) (y ∷ ys) h = ground (arith, same_tokens-eq xs ys)

same_step_refl : (s : Step) → same_step s s ≡ true
same_step_refl s = ground (arith, same_tokens_refl s.tokens, same_cut-refl s.truncate_to)
  where
    same_cut-refl : (o : Option ℕ) → Server.same_cut o o ≡ true
    same_cut-refl none = refl
    same_cut-refl (some n) = ground arith

abbrev is_answer : Reply → Bool
is_answer (answer out) = true
is_answer unknown = false
is_answer (refused x) = false

refused-ne-answer : (x : Session.StepError) (out : List ℕ) → refused x ≢ answer out
refused-ne-answer x out e = false≢true (ap is_answer e)

unknown-ne-answer : (out : List ℕ) → unknown ≢ answer out
unknown-ne-answer out e = false≢true (ap is_answer e)

module _ (greedy : List ℕ → ℕ) where
  abbrev IsRepeatable : Slot → Step → List ℕ → Type 0
  IsRepeatable slot step out = Server.forward greedy slot step ≡ (slot, answer out)

  run_step-IsRepeatable :
      (step : Step) (h : Held) (r : Session.Result (List ℕ × List ℕ)) (slot : Slot) (out : List ℕ)
      → Server.run_step greedy step h r ≡ (slot, answer out)
      → IsRepeatable slot step out
  unfolding Server.forward
  run_step-IsRepeatable step h (ok (o, tokens)) slot out e =
      let there : slot ≡ some (record { tokens = tokens; last = some (step, o) }) =
        sym (ap (λ p. p.0) e) in
      let said : answer o ≡ answer out = ap (λ p. p.1) e in
      subst (λ x. IsRepeatable x step out) (sym there)
        (rw (same_step_refl step)
          (ap (λ r. (some (record { tokens = tokens; last = some (step, o) }), r)) said))
  run_step-IsRepeatable step h (err x) slot out e =
      absurd (refused-ne-answer x out (ap (λ p. p.1) e))

  forward_new-IsRepeatable :
      (step : Step) (h : Held) (o : Option (List ℕ)) (slot : Slot) (out : List ℕ)
      → saved_for step h.last ≡ o
      → Server.forward_new greedy step h o ≡ (slot, answer out)
      → IsRepeatable slot step out
  unfolding Server.forward
  forward_new-IsRepeatable step h (some o) slot out was e =
      subst (λ x. IsRepeatable x step out) (ap (λ p. p.0) e)
        (rw was (ap (λ r. (some h, r)) (ap (λ p. p.1) e)))
  forward_new-IsRepeatable step h none slot out was e = run_step-IsRepeatable step h _ slot out e

  -- A step that was answered gets the same answer when it is sent again, and changes nothing.
  pub forward-again :
      (slot slot' : Slot) (step : Step) (out : List ℕ)
      → Server.forward greedy slot step ≡ (slot', answer out)
      → Server.forward greedy slot' step ≡ (slot', answer out)
  unfolding Server.forward
  forward-again none slot' step out e = absurd (unknown-ne-answer out (ap (λ p. p.1) e))
  forward-again (some h) slot' step out e =
      forward_new-IsRepeatable step h (saved_for step h.last) slot' out refl e
