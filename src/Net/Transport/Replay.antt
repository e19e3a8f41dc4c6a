-- ===== src/Net/Transport/Replay.antt =====
-- commonnet/net/transport.py: what one call of a server leaves, and what a replay of the history leaves.
use common_network.Prelude.{
  ℕ, ◌≤◌, ◌<◌, ◌≡◌, ◌≢◌, refl, sym, ap, ◌∙◌, List, [], ◌∷◌, ◌++◌, length, Option, none, some, ◌==◌,
  number_eq, equal_refl, arith, Bool-cases, inl, inr,
}
use mathlib.Core.Path.{subst}
use mathlib.Core.Option.{none-ne-some, some-injective}
use common_network.Speculative.Session
use common_network.Net.Server
use common_network.Net.Server.{Held, Slot, answer}
use common_network.Net.Server.Holds.{IsHeld, Fresh, step_on, forward-RunsOn}
use common_network.Net.Transport
use common_network.Net.Transport.{
  Fate, fine, no_answer, reply_lost, restarted, World, Outcome, done, failed, set_slot, called,
  call_with, call, open_slot, forward_slot,
}

abbrev answered : Outcome → Option (List ℕ)
answered (done out) = some out
answered (failed e) = none

done-injective : {a b : List ℕ} → done a ≡ done b → a ≡ b
done-injective e = some-injective _ _ (ap answered e)

pub failed-ne-done : {e : Transport.Failure} {out : List ℕ} → failed e ≢ done out
failed-ne-done h = none-ne-some _ (ap answered h)

module _ (greedy : List ℕ → ℕ) where
  abbrev pub IsSlot : Slot → Type 0
  IsSlot none = Unit
  IsSlot (some h) = IsHeld greedy h

  -- Every session of every server is one that steps have left.
  abbrev pub AreSlots : (ℕ → Slot) → Type 0
  AreSlots slots = (i : ℕ) → IsSlot (slots i)

  -- The session is open and holds the tokens, or there are none to hold yet.
  abbrev pub Ready : Slot → List ℕ → Type 0
  Ready slot c = (h : Held) × ((slot ≡ some h) × IsHeld greedy h × Fresh greedy h.tokens c)

  set_slot-AreSlots :
      (i : ℕ) (slot : Slot) (slots : ℕ → Slot)
      → IsSlot slot
      → AreSlots slots
      → AreSlots (set_slot i slot slots)
  set_slot-AreSlots i slot slots h all j = elim (Bool-cases (j == i)) [
    | inl here ↦ rw here h
    | inr there ↦ rw there (all j)
  ]

  set_slot-same : (i : ℕ) (slot : Slot) (slots : ℕ → Slot) → set_slot i slot slots i ≡ slot
  set_slot-same i slot slots = rw (equal_refl i) refl

  module _ (G : Slot → List ℕ → Type 0) where
    -- Where the call is done its server has the session that is asked for; where it fails a fate is used up.
    abbrev Ends : ℕ → List Fate → World → Outcome → Type 0
    Ends i fates w (done out) = G (w.slots i) out
    Ends i fates w (failed e) = length w.fates < length fates

    pub record IsCalled (i : ℕ) (fates : List Fate) (r : World × Outcome) : Type 0 where
      pub slots : AreSlots r.0.slots
      pub fewer : length r.0.fates ≤ length fates
      pub ends : Ends i fates r.0 r.1

    abbrev IsGood : Slot × Outcome → Type 0
    IsGood r = IsSlot r.0 × ((out : List ℕ) → r.1 ≡ done out → G r.0 out)

    called-IsCalled :
        (i : ℕ) (r : Slot × Outcome) (slots : ℕ → Slot) (f : Fate) (fates : List Fate)
        → AreSlots slots
        → IsGood r
        → IsCalled i (f ∷ fates) (called i r slots fates)
    called-IsCalled i (slot, done out) slots f fates all good = record {
      slots = set_slot-AreSlots i slot slots good.0 all;
      fewer = omega arith;
      ends = subst (λ s. G s out) (sym (set_slot-same i slot slots)) (good.1 out refl);
    }
    called-IsCalled i (slot, failed e) slots f fates all good = record {
      slots = set_slot-AreSlots i slot slots good.0 all;
      fewer = omega arith;
      ends = omega arith;
    }

    -- What holds after fewer fates holds after more.
    pub later :
        {i : ℕ} {fates fates' : List Fate} {r : World × Outcome}
        → IsCalled i fates r
        → length fates ≤ length fates'
        → IsCalled i fates' r
    later {r = (w, done out)} h le = record {
      slots = h.slots;
      fewer = omega (arith, h.fewer);
      ends = h.ends;
    }
    later {r = (w, failed e)} h le = record {
      slots = h.slots;
      fewer = omega (arith, h.fewer);
      ends = omega (arith, h.ends);
    }

    pub call_with-IsCalled :
        (i : ℕ) (run : Slot → Slot × Outcome) (slots : ℕ → Slot) (fates : List Fate) (out : List ℕ)
        → AreSlots slots
        → (run (slots i)).1 ≡ done out
        → IsSlot (run (slots i)).0
        → G (run (slots i)).0 out
        → IsGood (run none)
        → IsCalled i fates (call_with i run slots fates)
    call_with-IsCalled i run slots [] out all ran slot good anew = record {
      slots = set_slot-AreSlots i (run (slots i)).0 slots slot all;
      fewer = omega arith;
      ends =
          subst
            (λ o. Ends i [] (record { slots = set_slot i (run (slots i)).0 slots; fates = [] }) o)
            (sym ran) (subst (λ s. G s out) (sym (set_slot-same i (run (slots i)).0 slots)) good);
    }
    call_with-IsCalled i run slots (fine ∷ fates) out all ran slot good anew =
        called-IsCalled i (run (slots i)) slots fine fates all
          (slot, λ o e. subst (G (run (slots i)).0) (done-injective (sym ran ∙ e)) good)
    call_with-IsCalled i run slots (no_answer ∷ fates) out all ran slot good anew = record {
      slots = all;
      fewer = omega arith;
      ends = omega arith;
    }
    call_with-IsCalled i run slots (reply_lost ∷ fates) out all ran slot good anew =
        called-IsCalled i ((run (slots i)).0, failed Transport.unreachable) slots reply_lost fates
          all (slot, λ o e. absurd (failed-ne-done e))
    call_with-IsCalled i run slots (restarted ∷ fates) out all ran slot good anew =
        called-IsCalled i (run none) slots restarted fates all anew

  -- A piece that goes on after the tokens is answered as it is on a server that never fails.
  pub call-forward :
      (i : ℕ) (w : World) (c ts : List ℕ)
      → AreSlots w.slots
      → Ready (w.slots i) c
      → IsCalled
          (λ slot out. (out ≡ Session.replies greedy c ts) × Ready slot (c ++ ts))
          i
          w.fates
          (call i (forward_slot greedy (step_on greedy c ts)) w)
  unfolding forward_slot Server.forward
  call-forward i w c ts all (h, (at, held, fresh)) =
      let G : Slot → List ℕ → Type 0 =
        λ slot out. (out ≡ Session.replies greedy c ts) × Ready slot (c ++ ts) in
      let runs = forward-RunsOn greedy h c ts held fresh in
      let (k, (now, tokens, last)) = runs.1 in
      let on : Server.forward greedy (w.slots i) (step_on greedy c ts)
          ≡ Server.forward greedy (some h) (step_on greedy c ts) =
        ap (λ s. Server.forward greedy s (step_on greedy c ts)) at in
      let slot : (Server.forward greedy (w.slots i) (step_on greedy c ts)).0 ≡ some k =
        ap (λ r. r.0) on ∙ now in
      call_with-IsCalled G i (forward_slot greedy (step_on greedy c ts)) w.slots w.fates
        (Session.replies greedy c ts) all (ap Transport.outcome_of (ap (λ r. r.1) on ∙ runs.0))
        (subst IsSlot (sym slot) last) (refl, (k, (slot, last, inl tokens)))
        (tt, λ out e. absurd (failed-ne-done e))

  open_session-Ready :
      (slot : Slot)
      → IsSlot slot
      → IsSlot (Server.open_session slot) × Ready (Server.open_session slot) []
  unfolding Server.open_session
  open_session-Ready none h = (tt, (record { tokens = []; last = none }, (refl, tt, inr refl)))
  open_session-Ready (some k) h = (h, (k, (refl, h, inr refl)))

  pub call-open :
      (i : ℕ) (w : World)
      → AreSlots w.slots
      → IsCalled (λ slot out. Ready slot []) i w.fates (call i (open_slot) w)
  call-open i w all =
      let opened = open_session-Ready (w.slots i) (all i) in
      let anew = open_session-Ready none tt in
      call_with-IsCalled (λ slot out. Ready slot []) i open_slot w.slots w.fates [] all refl
        opened.0 opened.1 (anew.0, λ out e. anew.1)

  -- The pieces follow one another from some tokens on, and end at others.
  abbrev pub IsHistory : List ℕ → List (ℕ × List ℕ) → List ℕ → Type 0
  IsHistory c [] end = c ≡ end
  IsHistory c ((start_pos, ts) ∷ pieces) end =
      (start_pos ≡ length c) × IsHistory (c ++ ts) pieces end

  abbrev pub IsReplayed : ℕ → List ℕ → List Fate → World × Outcome → Type 0
  IsReplayed i end = IsCalled (λ slot out. Ready slot end) i

  replay_rest :
      (i : ℕ) (c ts : List ℕ) (pieces : List (ℕ × List ℕ)) (end : List ℕ) (fates : List Fate)
      (r : World × Outcome)
      → IsCalled (λ slot out. (out ≡ Session.replies greedy c ts) × Ready slot (c ++ ts)) i fates r
      → ((v : World)
          → AreSlots v.slots
          → Ready (v.slots i) (c ++ ts)
          → IsReplayed i end v.fates (Transport.replay greedy i pieces v))
      → IsReplayed i end fates
          (Transport.and_then greedy r (λ v. Transport.replay greedy i pieces v))
  replay_rest i c ts pieces end fates (v, failed e) h go = record {
    slots = h.slots;
    fewer = h.fewer;
    ends = h.ends;
  }
  replay_rest i c ts pieces end fates (v, done out) h go =
      later (λ slot out. Ready slot end) (go v h.slots h.ends.1) h.fewer

  pub replay-IsReplayed :
      (i : ℕ) (c : List ℕ) (pieces : List (ℕ × List ℕ)) (end : List ℕ) (w : World)
      → IsHistory c pieces end
      → AreSlots w.slots
      → Ready (w.slots i) c
      → IsReplayed i end w.fates (Transport.replay greedy i pieces w)
  unfolding Transport.replay
  replay-IsReplayed i c [] end w run all ready = record {
    slots = all;
    fewer = omega arith;
    ends = subst (Ready (w.slots i)) run ready;
  }
  replay-IsReplayed i c ((start_pos, ts) ∷ pieces) end w run all ready =
      subst
        (λ n. IsReplayed i end w.fates (
          Transport.and_then greedy (call i (forward_slot greedy (Transport.piece greedy n ts)) w)
            (λ v. Transport.replay greedy i pieces v)))
        (sym run.0)
        (replay_rest i c ts pieces end w.fates _ (call-forward i w c ts all ready)
          (λ v slots at. replay-IsReplayed i (c ++ ts) pieces end v run.1 slots at))
