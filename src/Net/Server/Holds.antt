-- ===== src/Net/Server/Holds.antt =====
-- commonnet/net/server.py: what a session holds after a step, and the reply.
use common_network.Prelude.{
  ℕ, ◌≡◌, ◌⊎◌, refl, sym, ap, ◌∙◌, List, [], ◌∷◌, ◌++◌, length, Option, none, some, true, false,
  ◌==◌, number_eq, take, take-all, arith, Bool-cases, inl, inr,
}
use mathlib.Core.Path.{subst}
use common_network.Speculative.Session.{ok, err}
use common_network.Speculative.Session
use common_network.Net.Server
use common_network.Net.Server.{Step, Held, Slot, answer, same_tokens, same_step, saved_for}
use common_network.Net.Server.Saved.{same_tokens-eq}

take-append : (c ts : List ℕ) → take (length c) (c ++ ts) ≡ c
take-append [] ts = refl
take-append (x ∷ c) ts = ap (◌∷◌ x) (take-append c ts)

module _ (greedy : List ℕ → ℕ) where
  -- The step that is saved was the last to be run, with its reply.
  pub record IsLast (tokens : List ℕ) (s : Step) (out : List ℕ) : Type 0 where
    pub ended : tokens ≡ take s.start_pos tokens ++ s.tokens
    pub said : out ≡ Session.replies greedy (take s.start_pos tokens) s.tokens

  abbrev pub IsLastOf : List ℕ → Option (Step × List ℕ) → Type 0
  IsLastOf tokens none = Unit
  IsLastOf tokens (some (s, out)) = IsLast tokens s out

  abbrev pub IsHeld : Held → Type 0
  IsHeld h = IsLastOf h.tokens h.last

  -- The session is open, holds these tokens, and is one that steps have left.
  abbrev pub Holds : Slot → List ℕ → Type 0
  Holds slot tokens = (h : Held) × ((slot ≡ some h) × (h.tokens ≡ tokens) × IsHeld h)

  -- A step that goes on after the tokens, without a cut.
  abbrev pub step_on : List ℕ → List ℕ → Step
  step_on c ts = record { tokens = ts; start_pos = length c; truncate_to = none }

  -- The session holds the tokens, or there are none and the step starts it anew.
  abbrev pub Fresh : List ℕ → List ℕ → Type 0
  Fresh held c = (held ≡ c) ⊎ (c ≡ [])

  Fresh-take :
      (held c ts : List ℕ)
      → Fresh held c
      → held ≡ take (length c) held ++ ts
      → take (length c) held ≡ c
  Fresh-take held c ts (inl same) e =
      ap (take (length c)) same ∙ take-all (length c) c (omega arith)
  Fresh-take held c ts (inr empty) e = rw empty refl

  block_runs :
      (held c ts : List ℕ)
      → Fresh held c
      → Session.forward greedy held ts (length c) ≡ ok (Session.replies greedy c ts, c ++ ts)
  unfolding Session.forward
  block_runs held [] ts fresh = refl
  block_runs held (x ∷ c) ts (inl same) =
      let later : (length (x ∷ c) == 0) ≡ false = ground arith in
      let there : (length held == length (x ∷ c)) ≡ true =
        ground (arith, same, number_eq.agrees (length (x ∷ c)) (length (x ∷ c))) in
      rw (later, there, same) refl
  block_runs held (x ∷ c) ts (inr empty) = absurd (ground (arith, ap length empty))

  -- The step is answered as it is after these tokens, and the session holds the step's tokens behind them.
  abbrev pub RunsOn : Slot × Server.Reply → List ℕ → List ℕ → Type 0
  RunsOn r c ts = (r.1 ≡ answer (Session.replies greedy c ts)) × Holds r.0 (c ++ ts)

  new_step :
      (h : Held) (c ts : List ℕ)
      → Fresh h.tokens c
      → RunsOn (Server.forward_new greedy (step_on c ts) h none) c ts
  new_step h c ts fresh =
      subst (λ r. RunsOn (Server.run_step greedy (step_on c ts) h r) c ts)
        (sym (block_runs h.tokens c ts fresh))
        (
          refl,
          (
            record { tokens = c ++ ts; last = some (step_on c ts, Session.replies greedy c ts) },
            (
              refl,
              refl,
              record {
                ended = ap (λ z. z ++ ts) (sym (take-append c ts));
                said = ap (λ z. Session.replies greedy z ts) (sym (take-append c ts));
              },
            ),
          ),
        )

  old_step :
      (h : Held) (c ts : List ℕ) (s : Step) (out : List ℕ)
      → s.tokens ≡ ts
      → s.start_pos ≡ length c
      → IsLast h.tokens s out
      → IsHeld h
      → Fresh h.tokens c
      → RunsOn (some h, answer out) c ts
  old_step h c ts s out same at last held fresh =
      let ended : h.tokens ≡ take (length c) h.tokens ++ ts =
        subst (λ n. h.tokens ≡ take n h.tokens ++ ts) at
          (subst (λ t. h.tokens ≡ take s.start_pos h.tokens ++ t) same last.ended) in
      let before = Fresh-take h.tokens c ts fresh ended in
      let said : out ≡ Session.replies greedy c ts =
        last.said
        ∙ ap (λ n. Session.replies greedy (take n h.tokens) s.tokens) at
        ∙ ap (Session.replies greedy (take (length c) h.tokens)) same
        ∙ ap (λ z. Session.replies greedy z ts) before in
      (ap answer said, (h, (refl, ended ∙ ap (λ z. z ++ ts) before, held)))

  run-RunsOn :
      (h : Held) (c ts : List ℕ) (o : Option (Step × List ℕ))
      → h.last ≡ o
      → IsLastOf h.tokens o
      → IsHeld h
      → Fresh h.tokens c
      → RunsOn (Server.forward_new greedy (step_on c ts) h (saved_for (step_on c ts) o)) c ts
  run-RunsOn h c ts none was last held fresh = new_step h c ts fresh
  run-RunsOn h c ts (some (s, out)) was last held fresh =
      elim (Bool-cases (same_step s (step_on c ts))) [
        | inl again ↦ rw again (
            old_step h c ts s out (same_tokens-eq s.tokens ts (ground (arith, again)))
              (ground (arith, again)) last held fresh)
        | inr other ↦ rw other (new_step h c ts fresh)
      ]

  -- A step without a cut that goes on where an open session ends, or starts it anew, is answered with the
  -- replies after the tokens before it, also where the session has run the step already; and the session then
  -- holds the tokens before it and the step's own.
  pub forward-RunsOn :
      (h : Held) (c ts : List ℕ)
      → IsHeld h
      → Fresh h.tokens c
      → RunsOn (Server.forward greedy (some h) (step_on c ts)) c ts
  unfolding Server.forward
  forward-RunsOn h c ts held fresh = run-RunsOn h c ts h.last refl held held fresh
