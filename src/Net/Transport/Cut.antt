-- ===== src/Net/Transport/Cut.antt =====
-- commonnet/net/transport.py: a session that is cut back, also where another server takes over.
use common_network.Prelude.{
  ℕ, zero, suc, ◌+◌, ◌-◌, ◌≤◌, ◌<◌, ◌≡◌, refl, sym, ap, ◌∙◌, List, [], ◌∷◌, ◌++◌, length, take,
  take-all, Option, none, some, true, ltb, leb, arith, by_test, inl, inr,
}
use mathlib.Core.Path.{subst}
use mathlib.Core.Bool.{false≢true}
use common_network.Speculative.Session
use common_network.Net.Server
use common_network.Net.Server.{Slot, Held}
use common_network.Net.Server.Holds.{Fresh}
use common_network.Net.Transport
use common_network.Net.Transport.{Fate, World, Outcome, done, failed, Failure, call, Tried}
use common_network.Net.Transport.Replay.{
  IsSlot, AreSlots, Ready, IsCalled, IsHistory, call_with-IsCalled, failed-ne-done,
}
use common_network.Net.Transport.Failover.{IsTried, recover-IsTried}
use common_network.Net.Transport.Send.{is_fatal-count}
use common_network.Net.Transport.Forward.{IsSession}

take_nil : (n : ℕ) → take {A = ℕ} n [] ≡ []
take_nil zero = refl
take_nil (suc n) = refl

take-append-le : (n : ℕ) (c ts : List ℕ) → n ≤ length c → take n (c ++ ts) ≡ take n c
take-append-le zero c ts le = refl
take-append-le (suc n) [] ts le = absurd (omega arith)
take-append-le (suc n) (x ∷ c) ts le = ap (◌∷◌ x) (take-append-le n c ts (omega arith))

take-append-ge :
    (n : ℕ) (c ts : List ℕ) → length c ≤ n → take n (c ++ ts) ≡ c ++ take (n - length c) ts
take-append-ge n [] ts le = ap (λ k. take k ts) (omega arith)
take-append-ge zero (x ∷ c) ts le = absurd (omega arith)
take-append-ge (suc n) (x ∷ c) ts le =
    ap (◌∷◌ x) (take-append-ge n c ts (omega arith) ∙ ap (λ k. c ++ take k ts) (omega arith))

module _ (greedy : List ℕ → ℕ) where
  cut_history-IsHistory :
      (n : ℕ) (c : List ℕ) (pieces : List (ℕ × List ℕ)) (end : List ℕ)
      → IsHistory greedy c pieces end
      → IsHistory greedy (take n c) (Transport.cut_history greedy n pieces) (take n end)
  unfolding Transport.cut_history
  cut_history-IsHistory n c [] end run = ap (take n) run
  cut_history-IsHistory n c ((p, ts) ∷ pieces) end run =
      let rest = cut_history-IsHistory n (c ++ ts) pieces end run.1 in
      let cut = Transport.cut_history greedy n pieces in
      let P : List (ℕ × List ℕ) → Type 0 = λ h. IsHistory greedy (take n c) h (take n end) in
      by_test P (leb n p) cut _
        (λ past.
          subst (λ z. IsHistory greedy z cut (take n end))
            (take-append-le n c ts (ground (arith, past, run.0))) rest)
        (λ inside.
          let whole : take n c ≡ c = take-all n c (ground (arith, inside, run.0)) in
          let at : p ≡ length (take n c) = run.0 ∙ ap length (sym whole) in
          by_test P (ltb n (p + length ts)) ((p, take (n - p) ts) ∷ cut) ((p, ts) ∷ cut)
            (λ long. (
              at,
              subst (λ z. IsHistory greedy z cut (take n end))
                  (take-append-ge n c ts (ground (arith, inside, run.0))
                    ∙ ap (λ k. c ++ take (n - k) ts) (sym run.0)
                    ∙ ap (λ z. z ++ take (n - p) ts) (sym whole))
                  rest,
            ))
            (λ short. (
              at,
              subst (λ z. IsHistory greedy z cut (take n end))
                  (take-append-ge n c ts (ground (arith, inside, run.0))
                    ∙ ap (λ z. c ++ z) (take-all (n - length c) ts (ground (arith, short, run.0)))
                    ∙ ap (λ z. z ++ ts) (sym whole))
                  rest,
            )))

  call-truncate :
      (i n : ℕ) (w : World) (c : List ℕ)
      → AreSlots greedy w.slots
      → Ready greedy (w.slots i) c
      → IsCalled greedy
          (λ slot out. Ready greedy slot (take n c))
          i
          w.fates
          (call i (Transport.truncate_slot greedy n) w)
  unfolding Server.truncate Session.cut_back
  call-truncate i n w c all (h, (at, held, fresh)) =
      let cut : Held = record { tokens = take n h.tokens; last = none } in
      let run : Transport.truncate_slot greedy n (w.slots i)
          ≡ Transport.truncate_slot greedy n (some h) =
        ap (Transport.truncate_slot greedy n) at in
      call_with-IsCalled greedy (λ slot out. Ready greedy slot (take n c)) i
        (Transport.truncate_slot greedy n) w.slots w.fates [] all (ap (λ r. r.1) run)
        (subst (λ r. IsSlot greedy r.0) (sym run) tt)
        (subst (λ r. Ready greedy r.0 (take n c)) (sym run)
          (cut, (refl, tt, Fresh-take n h.tokens c fresh)))
        (tt, λ out e. absurd (failed-ne-done e))
    where
      Fresh-take :
          (n : ℕ) (held c : List ℕ) → Fresh greedy held c → Fresh greedy (take n held) (take n c)
      Fresh-take n held c (inl same) = inl (ap (take n) same)
      Fresh-take zero held c (inr empty) = inr refl
      Fresh-take (suc n) held c (inr empty) = inr (ap (take (suc n)) empty)

  abbrev pub IsCut : List ℕ → Transport.Transport → World → Option Failure → Type 0
  IsCut c t w none = IsSession greedy c t w
  IsCut c t w (some e) = AreSlots greedy w.slots

  recovered-IsCut :
      (c : List ℕ) (t : Transport.Transport) (fates : List Fate) (u : Transport.Transport)
      (v : World) (error : Option Failure)
      → t.is_open ≡ true
      → IsHistory greedy [] t.history c
      → IsTried greedy c t fates (record { transport = u; world = v; error = error })
      → IsCut c u v error
  recovered-IsCut c t fates u v (some e) on run h = h.slots
  recovered-IsCut c t fates u v none on run h = record {
    slots = h.slots;
    kept = λ many. subst (λ z. IsHistory greedy [] z c) (sym h.history) run;
    ready = λ o. h.ends;
    closed = λ off. absurd (false≢true (sym off ∙ h.opened ∙ on));
  }

  cut_or-IsCut :
      (now : ℕ) (c : List ℕ) (t : Transport.Transport) (fates : List Fate) (r : World × Outcome)
      → t.is_open ≡ true
      → (1 < t.count → IsHistory greedy [] t.history c)
      → IsCalled greedy (λ slot out. Ready greedy slot c) t.active fates r
      → let o = Transport.cut_or greedy now t r in IsCut c o.transport o.world o.error
  cut_or-IsCut now c t fates (w, done out) on run h = record {
    slots = h.slots;
    kept = run;
    ready = λ o. h.ends;
    closed = λ off. absurd (false≢true (sym off ∙ on));
  }
  cut_or-IsCut now c t fates (w, failed e) on run h =
      by_test (λ (o : Tried). IsCut c o.transport o.world o.error)
        (Transport.is_fatal greedy t.count e) _ _ (λ fatal. h.slots)
        (λ other.
          let kept = run (is_fatal-count greedy now c [] t.count e other) in
          let r = Transport.recover greedy now t.active e t w in
          recovered-IsCut c t w.fates r.transport r.world r.error on kept
            (recover-IsTried greedy now c t.active e t w kept h.slots))

  -- On a session as the calls of the transport leave it, whatever happens to the calls of the servers: a
  -- `truncate` that returns leaves it with the first positions that it held, again as the calls leave it, on the server it was on or on one that took over; one that raises leaves every session of the
  -- servers one that steps have left.
  pub truncate-IsSession :
      (now n : ℕ) (c : List ℕ) (t : Transport.Transport) (w : World)
      → IsSession greedy c t w
      → let r = Transport.truncate greedy now n t w in IsCut (take n c) r.transport r.world r.error
  unfolding Transport.truncate
  truncate-IsSession now n c t w ok =
      let cut : Transport.Transport = record t {
        history = Transport.cut_history greedy n t.history;
      } in
      by_test (λ (o : Tried). IsCut (take n c) o.transport o.world o.error) t.is_open
        (Transport.cut_or greedy now cut (call cut.active (Transport.truncate_slot greedy n) w))
        (record { transport = t; world = w; error = none })
        (λ on.
          cut_or-IsCut now (take n c) cut w.fates _ on
            (λ many.
              subst (λ z. IsHistory greedy z cut.history (take n c)) (take_nil n)
                (cut_history-IsHistory n [] t.history c (ok.kept many)))
            (call-truncate t.active n w c ok.slots (ok.ready on)))
        (λ off.
          subst (λ z. IsSession greedy z t w)
            (ok.closed off ∙ sym (take_nil n) ∙ ap (take n) (sym (ok.closed off))) ok)
