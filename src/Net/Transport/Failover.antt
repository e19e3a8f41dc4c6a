-- ===== src/Net/Transport/Failover.antt =====
-- commonnet/net/transport.py: a session that is moved between servers answers as one that never was.
use common_network.Prelude.{
  ℕ, ◌≤◌, ◌≡◌, refl, sym, ◌∙◌, List, [], ◌∷◌, length, Option, none, some, ◌&&◌, not, ◌==◌,
  number_eq, arith, Bool-cases, inl, inr,
}
use mathlib.Core.Path.{subst}
use common_network.Net.Transport
use common_network.Net.Transport.{
  Fate, World, Outcome, done, failed, Failure, call, open_slot, forward_slot, Tried, Sent, sent,
  raised, stuck,
}
use common_network.Net.Transport.Replay.{
  AreSlots, Ready, IsCalled, IsHistory, IsReplayed, call-open, replay-IsReplayed,
}

module _ (greedy : List ℕ → ℕ) where
  abbrev pub EndsReady : List ℕ → Transport.Transport → World → Option Failure → Type 0
  EndsReady c t w none = Ready greedy (w.slots t.active) c
  EndsReady c t w (some e) = Unit

  -- What trying servers leaves: the history stays, and where a server is found it holds the tokens.
  pub record IsTried (c : List ℕ) (t : Transport.Transport) (fates : List Fate) (r : Tried)
      : Type 0 where
    pub slots : AreSlots greedy r.world.slots
    pub fewer : length r.world.fates ≤ length fates
    pub history : r.transport.history ≡ t.history
    pub count : r.transport.count ≡ t.count
    pub opened : r.transport.is_open ≡ t.is_open
    pub ends : EndsReady c r.transport r.world r.error

  module _ (now : ℕ) (c : List ℕ) where
    replayed-IsTried :
        (i : ℕ) (t : Transport.Transport) (fates : List Fate) (r : World × Outcome)
        → t.active ≡ i
        → IsReplayed greedy i c fates r
        → IsTried c t fates (Transport.replayed greedy now i t r)
    replayed-IsTried i t fates (w, failed e) at h = record {
      slots = h.slots;
      fewer = h.fewer;
      history = refl;
      count = refl;
      opened = refl;
      ends = tt;
    }
    replayed-IsTried i t fates (w, done out) at h = record {
      slots = h.slots;
      fewer = h.fewer;
      history = refl;
      count = refl;
      opened = refl;
      ends = subst (λ j. Ready greedy (w.slots j) c) (sym at) h.ends;
    }

    started-IsTried :
        (i : ℕ) (t : Transport.Transport) (fates : List Fate) (r : World × Outcome)
        → IsHistory greedy [] t.history c
        → IsCalled greedy (λ slot out. Ready greedy slot []) i fates r
        → IsTried c t fates (Transport.started greedy now i t r)
    started-IsTried i t fates (w, failed e) run h = record {
      slots = h.slots;
      fewer = h.fewer;
      history = refl;
      count = refl;
      opened = refl;
      ends = tt;
    }
    started-IsTried i t fates (w, done out) run h =
        let moved : Transport.Transport = record t { active = i } in
        let tried =
          replayed-IsTried i moved w.fates (Transport.replay greedy i t.history w) refl
            (replay-IsReplayed greedy i [] t.history c w run h.slots h.ends) in
        record {
          slots = tried.slots;
          fewer = omega (arith, tried.fewer, h.fewer);
          history = tried.history;
          count = tried.count;
          opened = tried.opened;
          ends = tried.ends;
        }

    IsTried-after :
        (t : Transport.Transport) (fates : List Fate) (u : Transport.Transport) (fates' : List Fate)
        (r : Tried)
        → u.history ≡ t.history
        → u.count ≡ t.count
        → u.is_open ≡ t.is_open
        → length fates' ≤ length fates
        → IsTried c u fates' r
        → IsTried c t fates r
    IsTried-after t fates u fates' r history count opened le h = record {
      slots = h.slots;
      fewer = omega (arith, h.fewer);
      history = h.history ∙ history;
      count = h.count ∙ count;
      opened = h.opened ∙ opened;
      ends = h.ends;
    }

    next_or-IsTried :
        (gone i : ℕ) (t u : Transport.Transport) (fates : List Fate) (w : World)
        (error : Option Failure) (next : Transport.Transport → World → Failure → Tried)
        → IsTried c t fates (record { transport = u; world = w; error = error })
        → ((e : Failure) → IsTried c u w.fates (next u w e))
        → IsTried c t fates (Transport.next_or greedy gone i u w error next)
    next_or-IsTried gone i t u fates w none next h go = record {
      slots = h.slots;
      fewer = h.fewer;
      history = h.history;
      count = h.count;
      opened = h.opened;
      ends = h.ends;
    }
    next_or-IsTried gone i t u fates w (some e) next h go =
        IsTried-after t fates u w.fates (next u w e) h.history h.count h.opened h.fewer (go e)

    try_all-IsTried :
        (gone : ℕ) (is : List ℕ) (t : Transport.Transport) (w : World) (e : Failure)
        → IsHistory greedy [] t.history c
        → AreSlots greedy w.slots
        → IsTried c t w.fates (Transport.try_all greedy now gone is t w e)
    unfolding Transport.try_all Transport.try_one
    try_all-IsTried gone [] t w e run all = record {
      slots = all;
      fewer = omega arith;
      history = refl;
      count = refl;
      opened = refl;
      ends = tt;
    }
    try_all-IsTried gone (i ∷ is) t w e run all =
        let r = Transport.try_one greedy now i t w in
        let one = started-IsTried i t w.fates (call i open_slot w) run (call-open greedy i w all) in
        elim (Bool-cases (not (i == gone) && not (Transport.alive now t i))) [
          | inl skip ↦ rw skip (try_all-IsTried gone is t w e run all)
          | inr try ↦ rw try (
              next_or-IsTried gone i t r.transport w.fates r.world r.error
                (λ u v f. Transport.try_all greedy now gone is u v f) one
                (λ f.
                  try_all-IsTried gone is r.transport r.world f
                    (subst (λ h. IsHistory greedy [] h c) (sym one.history) run) one.slots))
        ]

    pub recover-IsTried :
        (gone : ℕ) (e : Failure) (t : Transport.Transport) (w : World)
        → IsHistory greedy [] t.history c
        → AreSlots greedy w.slots
        → IsTried c t w.fates (Transport.recover greedy now gone e t w)
    unfolding Transport.recover
    recover-IsTried gone e t w run all =
        let h =
          try_all-IsTried gone (Transport.others_from greedy gone t.count 1 t.count)
            (Transport.bury now gone t) w e run all in
        record {
          slots = h.slots;
          fewer = h.fewer;
          history = h.history;
          count = h.count;
          opened = h.opened;
          ends = h.ends;
        }
