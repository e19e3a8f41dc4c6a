-- ===== src/Speculative/Settled.antt =====
-- What follows a trip with drafts in `speculative_stream`: the roll-back leaves the session in step,
-- and what is yielded is what the greedy stream has left.
use mathlib.Core.List.{append_assoc}
use common_network.Prelude.{
  ℕ, ◌+◌, ◌≤◌, ◌<◌, ◌≡◌, refl, ap, sym, ◌∙◌, List, [], ◌∷◌, ◌++◌, length, length-append,
  length-take, take, Bool, true, false, number_eq, arith, inl, inr,
}
use common_network.Speculative.Session.{ok, replies, forward}
use common_network.Speculative.Plain.{finished, trip}
use common_network.Speculative.Loop
use common_network.Speculative.Loop.{State, Outcome, ended, continued, Emitted}
use common_network.Speculative.Follows.{IsVerified, verify-IsVerified}
use common_network.Speculative.Verify.{verify}
use common_network.Speculative.Loop.{check_chain}
use common_network.Speculative.Chain.{adapt_bound}
use common_network.Speculative.Round

module _ {D : Type 0} (greedy : List ℕ → ℕ) (stop : ℕ → Bool)
    (propose : D → List ℕ → ℕ → List ℕ × D) (use_chain has_other_layers : Bool)
    (max_request_bytes vocab_size : ℕ) (adaptive : Bool) (k max_new : ℕ) where
  abbrev rest_of : ℕ → List ℕ → List ℕ
  rest_of =
      Round.rest_of greedy stop propose use_chain has_other_layers max_request_bytes vocab_size
        adaptive k max_new

  abbrev InStep : State D → Type 0
  InStep =
      Round.InStep greedy stop propose use_chain has_other_layers max_request_bytes vocab_size
        adaptive k max_new

  -- A round, from the trip on, ends with what the greedy stream has left, where `last` is out already,
  -- or goes on in step behind it.
  abbrev pub IsSettled : State D → Outcome D → Type 0
  IsSettled s (ended ts e stats) = (e ≡ finished) × (s.last ∷ rest_of s.produced s.context ≡ ts)
  IsSettled s (continued ts s') =
      InStep s'
      × (s.produced ≤ s'.produced)
      × (s.last ∷ rest_of s.produced s.context ≡ ts ++ rest_of s'.produced s'.context)

  yield_drafts-IsSettled :
      (s : State D) (drafts held : List ℕ) (m next : ℕ)
      → IsVerified greedy s.context drafts m next
      → s.produced < max_new
      → 0 < k
      → s.cur_k ≤ k
      → s.pos + 1 ≡ length s.context
      → held ≡ s.context ++ take m drafts
      → IsSettled s (
          Loop.yield_drafts greedy stop propose use_chain has_other_layers max_request_bytes
            vocab_size adaptive k max_new s drafts m next held)
  unfolding Loop.yield_drafts
  yield_drafts-IsSettled s drafts held m next v h pk ck p e =
      elim (Round.emit-IsEmitted greedy stop propose use_chain has_other_layers max_request_bytes
        vocab_size adaptive k max_new (take m drafts) s.produced s.context v.follows h) [
          | inl (done, out) ↦ rw (done, Loop.yield_drafts) (refl, ap (◌∷◌ s.last) out)
          | inr (going, context, up, bound, out) ↦
              rw (going, Loop.yield_drafts)
                (
                  record {
                    held = e ∙ sym context;
                    pos = omega (
                      arith,
                      ap length context,
                      length-append s.context (take m drafts),
                      length-take m drafts,
                      v.bound,
                    );
                    started = omega arith;
                    last = v.next_greedy ∙ ap greedy (sym context);
                    going = bound;
                    bounded = adapt_bound adaptive k s.cur_k m (length drafts) pk ck;
                  },
                  up,
                  ap (◌∷◌ s.last) out,
                )
        ]

  settle-IsSettled :
      (s : State D) (drafts held : List ℕ) (m next : ℕ)
      → IsVerified greedy s.context drafts m next
      → has_other_layers ≡ false
      → s.produced < max_new
      → 0 < k
      → s.cur_k ≤ k
      → s.pos + 1 ≡ length s.context
      → held ≡ s.context ++ drafts
      → IsSettled s (
          Loop.settle greedy stop propose use_chain has_other_layers max_request_bytes vocab_size
            adaptive k max_new s drafts held m next)
  unfolding Loop.settle
  settle-IsSettled s drafts held m next v own h pk ck p e =
      rw (e, Loop.settle)
        (rw
          (
            Round.rolled_back greedy stop propose use_chain has_other_layers max_request_bytes
                vocab_size adaptive k max_new s.context drafts s.pos m own p v.bound,
            Loop.settle,
          )
          (yield_drafts-IsSettled s drafts (s.context ++ take m drafts) m next v h pk ck p refl))

  forward_in_step :
      (held c c' : List ℕ) (t : ℕ) (ts : List ℕ) (pos : ℕ)
      → held ≡ c
      → c' ≡ c ++ t ∷ []
      → pos ≡ length c
      → 0 < pos
      → forward greedy held (t ∷ ts) pos ≡ ok (greedy c' ∷ replies greedy c' ts, c' ++ ts)
  unfolding forward replies
  forward_in_step held c c' t ts pos same grown at started =
      ground (arith, append_assoc c (t ∷ []) ts, ap length same)

  verified_trip_lem :
      (s : State D) (drafts out held : List ℕ) (m next : ℕ)
      → check_chain use_chain max_request_bytes true (s.last ∷ drafts) ≡ ok tt
      → forward greedy s.held (s.last ∷ drafts) s.pos ≡ ok (out, held)
      → verify use_chain vocab_size drafts out ≡ ok (m, next)
      → Loop.verified_trip greedy stop propose use_chain has_other_layers max_request_bytes
          vocab_size adaptive k max_new s drafts
        ≡ ok (held, m, next)
  unfolding Loop.verified_trip
  verified_trip_lem s drafts out held m next fits trip checked = rw (fits, trip, checked) refl

  pub check_drafts-IsSettled :
      (s : State D) (drafts c : List ℕ)
      → check_chain use_chain max_request_bytes true (s.last ∷ drafts) ≡ ok tt
      → ((c : List ℕ) → greedy c < vocab_size)
      → has_other_layers ≡ false
      → s.context ≡ c ++ s.last ∷ []
      → s.held ≡ c
      → s.pos ≡ length c
      → 0 < s.pos
      → s.produced < max_new
      → 0 < k
      → s.cur_k ≤ k
      → IsSettled s (
          Loop.check_drafts greedy stop propose use_chain has_other_layers max_request_bytes
            vocab_size adaptive k max_new s drafts)
  unfolding Loop.check_drafts
  check_drafts-IsSettled s drafts c fits vocab own context held pos started h pk ck =
      let (m, next, checked, v) =
        verify-IsVerified greedy use_chain vocab_size vocab s.context drafts in
      let trip = forward_in_step s.held c s.context s.last drafts s.pos held context pos started in
      rw (verified_trip_lem s drafts _ _ m next fits trip checked, Loop.check_drafts)
        (settle-IsSettled s drafts (s.context ++ drafts) m next v own h pk ck
          (omega (arith, ap length context, length-append c (s.last ∷ []))) refl)
