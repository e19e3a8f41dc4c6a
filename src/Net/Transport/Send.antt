-- ===== src/Net/Transport/Send.antt =====
-- commonnet/net/transport.py: `_send` answers as one server that never fails.
use common_network.Prelude.{
  ℕ, zero, suc, ◌≤◌, ◌<◌, ◌≡◌, refl, sym, ◌∙◌, List, [], ◌++◌, length, Option, none, some, false,
  number_eq, arith, Bool-cases, inl, inr,
}
use mathlib.Core.Path.{subst}
use common_network.Speculative.Session
use common_network.Net.Server.Holds.{step_on}
use common_network.Net.Transport
use common_network.Net.Transport.{
  Fate, World, Outcome, done, failed, Failure, call, open_slot, forward_slot, Tried, Sent, sent,
  raised, stuck, unreachable, lost_session, remote,
}
use common_network.Net.Transport.Replay.{AreSlots, Ready, IsCalled, IsHistory, call-forward}
use common_network.Net.Transport.Failover.{IsTried, recover-IsTried}

module _ (greedy : List ℕ → ℕ) where
  -- A server that never fails would give these replies; the session holds the tokens, and the history stays.
  abbrev pub IsSent : List ℕ → List ℕ → Transport.Transport → Sent → Type 0
  IsSent c ts t (sent u w out) =
      (out ≡ Session.replies greedy c ts)
      × (u.history ≡ t.history)
      × (u.count ≡ t.count)
      × (u.is_open ≡ t.is_open)
      × AreSlots greedy w.slots
      × Ready greedy (w.slots u.active) (c ++ ts)
  IsSent c ts t (raised u w e) = AreSlots greedy w.slots
  IsSent c ts t stuck = ⊥

  module _ (now : ℕ) (c ts : List ℕ) where
    abbrev Again : ℕ → (Transport.Transport → World → Sent) → Type 0
    Again fuel again =
        (u : Transport.Transport) (v : World)
        → length v.fates < fuel
        → AreSlots greedy v.slots
        → Ready greedy (v.slots u.active) c
        → (1 < u.count → IsHistory greedy [] u.history c)
        → IsSent c ts u (again u v)

    again_with-IsSent :
        (t u : Transport.Transport) (v : World) (error : Option Failure) (fuel : ℕ)
        (fates : List Fate) (again : Transport.Transport → World → Sent)
        → IsTried greedy c t fates (record { transport = u; world = v; error = error })
        → IsHistory greedy [] t.history c
        → length fates < fuel
        → Again fuel again
        → IsSent c ts t (Transport.again_with greedy u v error again)
    again_with-IsSent t u v (some e) fuel fates again h run le go = h.slots
    again_with-IsSent t u v none fuel fates again h run le go = moved (again u v) (
        go u v (omega (arith, h.fewer)) h.slots h.ends
          (λ many. subst (λ x. IsHistory greedy [] x c) (sym h.history) run))
      where
        moved : (s : Sent) → IsSent c ts u s → IsSent c ts t s
        moved (sent u' w' out) k = (k.0, k.1 ∙ h.history, k.2 ∙ h.count, k.3 ∙ h.opened, k.4, k.5)
        moved (raised u' w' e) k = k
        moved stuck k = k

    pub is_fatal-count : (n : ℕ) (e : Failure) → Transport.is_fatal greedy n e ≡ false → 1 < n
    is_fatal-count n unreachable h = ground arith
    is_fatal-count n lost_session h = ground arith
    is_fatal-count n (remote e) h = cc

    sent_or-IsSent :
        (t : Transport.Transport) (fates : List Fate) (fuel : ℕ) (r : World × Outcome)
        (again : Transport.Transport → World → Sent)
        → IsCalled greedy
            (λ slot out. (out ≡ Session.replies greedy c ts) × Ready greedy slot (c ++ ts))
            t.active
            fates
            r
        → (1 < t.count → IsHistory greedy [] t.history c)
        → length fates ≤ fuel
        → Again fuel again
        → IsSent c ts t (Transport.sent_or greedy now t r again)
    sent_or-IsSent t fates fuel (w, done out) again h run le go =
        (h.ends.0, refl, refl, refl, h.slots, h.ends.1)
    sent_or-IsSent t fates fuel (w, failed e) again h run le go =
        let r = Transport.recover greedy now t.active e t w in
        elim (Bool-cases (Transport.is_fatal greedy t.count e)) [
          | inl fatal ↦ rw fatal h.slots
          | inr other ↦
              let kept = run (is_fatal-count t.count e other) in
              rw other (
                again_with-IsSent t r.transport r.world r.error fuel w.fates again
                  (recover-IsTried greedy now c t.active e t w kept h.slots) kept
                  (omega (arith, h.ends)) go)
        ]

    pub send-IsSent :
        (fuel : ℕ) (t : Transport.Transport) (w : World)
        → length w.fates < fuel
        → AreSlots greedy w.slots
        → Ready greedy (w.slots t.active) c
        → (1 < t.count → IsHistory greedy [] t.history c)
        → IsSent c ts t (Transport.send greedy now fuel (step_on greedy c ts) t w)
    unfolding Transport.send
    send-IsSent zero t w le all ready run = absurd (omega arith)
    send-IsSent (suc fuel) t w le all ready run =
        sent_or-IsSent t w.fates fuel (call t.active (forward_slot greedy (step_on greedy c ts)) w)
          _ (call-forward greedy t.active w c ts all ready) run (omega arith)
          (λ u v le' all' ready' run'. send-IsSent fuel u v le' all' ready' run')
