-- ===== src/Net/Transport/Forward.antt =====
-- commonnet/net/transport.py: `forward` answers as one server that never fails.
use common_network.Prelude.{
  ℕ, zero, suc, ◌+◌, ◌≤◌, ◌<◌, ◌≡◌, refl, sym, ap, ◌∙◌, List, [], ◌∷◌, ◌++◌, length, length-append,
  take, drop, take-drop, length-drop, Option, none, some, true, false, number_eq, ltb,
  if◌then◌else◌, arith, by_test, Bool-cases, inl, inr,
}
use mathlib.Core.Path.{subst}
use mathlib.Core.Bool.{false≢true}
use mathlib.Core.List.{append-nil, append_assoc}
use common_network.Speculative.Session
use common_network.Net.Transport
use common_network.Net.Transport.{
  Fate, World, Outcome, done, failed, Failure, call, open_slot, forward_slot, Tried, Sent, sent,
  raised, stuck, unreachable, lost_session, remote,
}
use common_network.Net.Transport.Replay.{AreSlots, Ready, IsCalled, IsHistory, call-open}
use common_network.Net.Transport.Failover.{IsTried, recover-IsTried}
use common_network.Net.Transport.Send.{IsSent, send-IsSent}

module _ (greedy : List ℕ → ℕ) where
  -- Between the calls of `forward`: the session that is open holds the tokens, and where there is another
  -- server to go to the history has them; a session that is not open has none.
  pub record IsSession (c : List ℕ) (t : Transport.Transport) (w : World) : Type 0 where
    pub slots : AreSlots greedy w.slots
    pub kept : 1 < t.count → IsHistory greedy [] t.history c
    pub ready : t.is_open ≡ true → Ready greedy (w.slots t.active) c
    pub closed : t.is_open ≡ false → c ≡ []

  abbrev pub IsForwarded : List ℕ → List ℕ → List ℕ → Sent → Type 0
  IsForwarded c ts before (sent u w out) =
      (out ≡ before ++ Session.replies greedy c ts) × (u.is_open ≡ true) × IsSession (c ++ ts) u w
  IsForwarded c ts before (raised u w e) = AreSlots greedy w.slots
  IsForwarded c ts before stuck = ⊥

  abbrev concat : List (List ℕ) → List ℕ
  concat [] = []
  concat (xs ∷ xss) = xs ++ concat xss

  replies-append :
      (c xs ys : List ℕ)
      → Session.replies greedy c (xs ++ ys)
        ≡ Session.replies greedy c xs ++ Session.replies greedy (c ++ xs) ys
  unfolding Session.replies
  replies-append c [] ys = ap (λ z. Session.replies greedy z ys) (sym (append-nil c))
  replies-append c (x ∷ xs) ys = ap (◌∷◌ (greedy (c ++ x ∷ []))) (
      replies-append (c ++ x ∷ []) xs ys
      ∙ ap (λ z. Session.replies greedy (c ++ x ∷ []) xs ++ Session.replies greedy z ys)
          (append_assoc c (x ∷ []) xs))

  IsHistory-snoc :
      (c : List ℕ) (pieces : List (ℕ × List ℕ)) (end ts : List ℕ)
      → IsHistory greedy c pieces end
      → IsHistory greedy c (pieces ++ ((length end, ts) ∷ [])) (end ++ ts)
  IsHistory-snoc c [] end ts run = (ap length (sym run), ap (λ z. z ++ ts) run)
  IsHistory-snoc c (p ∷ pieces) end ts run = (run.0, IsHistory-snoc (c ++ p.1) pieces end ts run.1)

  remember-IsSession :
      (c ts : List ℕ) (t u : Transport.Transport) (v : World) (out : List ℕ)
      → (1 < t.count → IsHistory greedy [] t.history c)
      → t.is_open ≡ true
      → IsSent greedy c ts t (sent u v out)
      → IsSession (c ++ ts) (Transport.remember greedy (length c) ts u) v
        × ((Transport.remember greedy (length c) ts u).is_open ≡ true)
  remember-IsSession c ts t u v out run on s = elim (Bool-cases (ltb 1 u.count)) [
    | inl many ↦ rw many (
      record {
        slots = s.4;
        kept = λ lt.
            IsHistory-snoc [] u.history c ts
              (subst (λ h. IsHistory greedy [] h c) (sym (s.1)) (run (ground (arith, many, s.2))));
        ready = λ o. s.5;
        closed = λ o. absurd (false≢true (sym o ∙ s.3 ∙ on));
      },
      s.3 ∙ on,
    )
    | inr one ↦ rw one (
      record {
        slots = s.4;
        kept = λ lt. absurd (ground (arith, one));
        ready = λ o. s.5;
        closed = λ o. absurd (false≢true (sym o ∙ s.3 ∙ on));
      },
      s.3 ∙ on,
    )
  ]

  module _ (now : ℕ) where
    sent_then-IsForwarded :
        (c ts rest before : List ℕ) (t : Transport.Transport) (s : Sent)
        (next : Transport.Transport → World → List ℕ → Sent)
        → IsSent greedy c ts t s
        → ((u : Transport.Transport) (v : World) (out : List ℕ)
            → IsSent greedy c ts t (sent u v out)
            → IsForwarded (c ++ ts) rest (before ++ Session.replies greedy c ts) (next u v out))
        → IsForwarded c (ts ++ rest) before (Transport.sent_then greedy s next)
    sent_then-IsForwarded c ts rest before t (sent u v out) next h go =
        joined (next u v out) (go u v out h)
      where
        joined :
            (s : Sent)
            → IsForwarded (c ++ ts) rest (before ++ Session.replies greedy c ts) s
            → IsForwarded c (ts ++ rest) before s
        joined (sent u' w' out') k = (
          k.0
              ∙ append_assoc before (Session.replies greedy c ts)
                  (Session.replies greedy (c ++ ts) rest)
              ∙ ap (λ z. before ++ z) (sym (replies-append c ts rest)),
          k.1,
          subst (λ z. IsSession z u' w') (append_assoc c ts rest) k.2,
        )
        joined (raised u' w' e) k = k
        joined stuck k = k
    sent_then-IsForwarded c ts rest before t (raised u v e) next h go = h
    sent_then-IsForwarded c ts rest before t stuck next h go = h

    send_pieces-IsForwarded :
        (pieces : List (List ℕ)) (c before : List ℕ) (n : ℕ) (t : Transport.Transport) (w : World)
        → n ≡ length c
        → t.is_open ≡ true
        → IsSession c t w
        → IsForwarded c
            (concat pieces)
            before
            (Transport.send_pieces greedy now n pieces t w before)
    unfolding Transport.send_pieces Session.replies
    send_pieces-IsForwarded [] c before n t w at on ok =
        (sym (append-nil before), on, subst (λ z. IsSession z t w) (sym (append-nil c)) ok)
    send_pieces-IsForwarded (ts ∷ pieces) c before n t w at on ok =
        subst
          (λ k.
            IsForwarded c (ts ++ concat pieces) before
              (Transport.send_pieces greedy now k (ts ∷ pieces) t w before))
          (sym at)
          (sent_then-IsForwarded c ts (concat pieces) before t _ _
            (send-IsSent greedy now c ts (suc (length w.fates)) t w (omega arith) ok.slots
              (ok.ready on) ok.kept)
            (λ u v out h.
              let (next, still) = remember-IsSession c ts t u v out ok.kept on h in
              subst
                (λ z.
                  IsForwarded (c ++ ts) (concat pieces) (before ++ Session.replies greedy c ts) (
                    Transport.send_pieces greedy now (length c + length ts) pieces
                      (Transport.remember greedy (length c) ts u) v (before ++ z)))
                (sym h.0)
                (send_pieces-IsForwarded pieces (c ++ ts) (before ++ Session.replies greedy c ts)
                  (length c + length ts) (Transport.remember greedy (length c) ts u) v
                  (sym (length-append c ts)) still next)))

    pieces_of-concat :
        (chunk fuel : ℕ) (xs : List ℕ)
        → 0 < chunk
        → length xs ≤ fuel
        → concat (Transport.pieces_of greedy chunk fuel xs) ≡ xs
    unfolding Transport.pieces_of
    pieces_of-concat chunk fuel [] some_room le = refl
    pieces_of-concat chunk zero (x ∷ xs) some_room le = absurd (omega arith)
    pieces_of-concat chunk (suc fuel) (x ∷ xs) some_room le =
        ap (λ z. take chunk (x ∷ xs) ++ z)
          (pieces_of-concat chunk fuel (drop chunk (x ∷ xs)) some_room
            (omega (arith, length-drop chunk (x ∷ xs))))
        ∙ take-drop chunk (x ∷ xs)

    -- What opening leaves: an open session that is ready, or an error.
    abbrev IsOpened : List ℕ → Transport.Transport → World → Option Failure → Type 0
    IsOpened c t w none = (t.is_open ≡ true) × IsSession c t w
    IsOpened c t w (some e) = AreSlots greedy w.slots

    recovered :
        (t : Transport.Transport) (fates : List Fate) (u : Transport.Transport) (v : World)
        (error : Option Failure)
        → (1 < t.count → IsHistory greedy [] t.history [])
        → IsTried greedy [] t fates (record { transport = u; world = v; error = error })
        → let r : Tried = record { transport = u; world = v; error = error } in
          let m = if Transport.is_none error then Transport.opened greedy r else r in
          IsOpened [] m.transport m.world m.error
    recovered t fates u v none run h = (
      refl,
      record {
        slots = h.slots;
        kept = λ many.
            subst (λ z. IsHistory greedy [] z []) (sym h.history) (run (ground (arith, h.count)));
        ready = λ o. h.ends;
        closed = λ o. refl;
      },
    )
    recovered t fates u v (some e) run h = h.slots

    open_or-IsOpened :
        (i : ℕ) (t : Transport.Transport) (fates : List Fate) (r : World × Outcome)
        → (1 < t.count → IsHistory greedy [] t.history [])
        → IsCalled greedy (λ slot out. Ready greedy slot []) i fates r
        → let o = Transport.open_or greedy now i t r in IsOpened [] o.transport o.world o.error
    open_or-IsOpened i t fates (w, done out) run h =
        (refl, record { slots = h.slots; kept = run; ready = λ o. h.ends; closed = λ o. refl })
    open_or-IsOpened i t fates (w, failed unreachable) run h = elim (Bool-cases (ltb t.count 2)) [
      | inl one ↦ rw one h.slots
      | inr many ↦
          let r = Transport.recover greedy now i unreachable t w in
          rw many (
            recovered t w.fates r.transport r.world r.error run (
              recover-IsTried greedy now [] i unreachable t w (run (ground (arith, many))) h.slots))
    ]
    open_or-IsOpened i t fates (w, failed lost_session) run h = h.slots
    open_or-IsOpened i t fates (w, failed (remote e)) run h = h.slots

    ensure_open-IsOpened :
        (c : List ℕ) (t : Transport.Transport) (w : World)
        → IsSession c t w
        → let o = Transport.ensure_open greedy now t w in IsOpened c o.transport o.world o.error
    unfolding Transport.ensure_open
    ensure_open-IsOpened c t w ok =
        let i = Transport.first_alive now t 0 t.count in
        by_test (λ o. IsOpened c o.transport o.world o.error) t.is_open
          (record { transport = t; world = w; error = none })
          (Transport.open_or greedy now i t (call i open_slot w)) (λ on. (on, ok))
          (λ off.
            let none_yet : [] ≡ c = sym (ok.closed off) in
            subst
              (λ z.
                let o = Transport.open_or greedy now i t (call i open_slot w) in
                IsOpened z o.transport o.world o.error)
              none_yet
              (open_or-IsOpened i t w.fates (call i open_slot w)
                (λ many. subst (IsHistory greedy [] t.history) (sym none_yet) (ok.kept many))
                (call-open greedy i w ok.slots)))

    forward_opened-IsForwarded :
        (chunk : ℕ) (c ts : List ℕ) (t : Transport.Transport) (w : World) (error : Option Failure)
        → 0 < chunk
        → IsOpened c t w error
        → IsForwarded c ts [] (Transport.forward_opened greedy now chunk (length c) ts t w error)
    forward_opened-IsForwarded chunk c ts t w (some e) some_room h = h
    forward_opened-IsForwarded chunk c ts t w none some_room h =
        subst
          (λ z. IsForwarded c z [] (
            Transport.send_pieces greedy now (length c)
              (Transport.pieces_of greedy chunk (length ts) ts) t w []))
          (pieces_of-concat chunk (length ts) ts some_room (omega arith))
          (send_pieces-IsForwarded (Transport.pieces_of greedy chunk (length ts) ts) c [] (length c)
            t w refl h.0 h.1)

    -- On a session as the calls of the transport leave it, whatever happens to the calls of the servers:
    -- `forward` of positions that go on where the session ends, in pieces of at least one position, comes to an
    -- end; if it returns, then with the replies that one server that never fails gives, and the session is open
    -- and holds the positions behind those before them, again as the calls leave it; if it raises, then every
    -- session of the servers is one that steps have left.
    pub forward-IsForwarded :
        (chunk : ℕ) (c ts : List ℕ) (t : Transport.Transport) (w : World)
        → 0 < chunk
        → IsSession c t w
        → IsForwarded c ts [] (Transport.forward greedy now chunk (length c) ts t w)
    unfolding Transport.forward
    forward-IsForwarded chunk c ts t w some_room ok =
        let r = Transport.ensure_open greedy now t w in
        forward_opened-IsForwarded chunk c ts r.transport r.world r.error some_room
          (ensure_open-IsOpened c t w ok)
