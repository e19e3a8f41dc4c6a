-- ===== src/Speculative/Agree.antt =====
-- `speculative_stream` and plain decoding yield the same tokens: up to `max_new` greedy ones, until
-- a stop token.
use mathlib.Core.List.{append_assoc}
use common_network.Prelude.{
  ℕ, zero, suc, ◌+◌, ◌-◌, ◌≤◌, ◌<◌, ◌≡◌, refl, ap, sym, ◌∙◌, List, [], ◌∷◌, ◌++◌, length,
  length-append, Bool, true, false, min, if◌then◌else◌, ◌==◌, number_eq, arith, Bool-cases, inl,
  inr, ltb,
}
use common_network.Speculative.Session.{ok, ◌>>=◌, replies, forward}
use common_network.Speculative.Plain.{finished, Stream, trip, last_of, plain_loop, generate_stream}
use common_network.Speculative.Loop
use common_network.Speculative.Loop.{State, Outcome, ended, continued, Emitted}
use common_network.Speculative.Follows.{greedy_tokens}
use common_network.Speculative.Loop.{check_chain}
use common_network.Speculative.Chain.{
  IsChainDrafter, IsChainPrompt, check_chain-prompt, check_chain-drafts,
}
use common_network.Speculative.Round
use common_network.Speculative.Settled

module _ {D : Type 0} (greedy : List ℕ → ℕ) (stop : ℕ → Bool)
    (propose : D → List ℕ → ℕ → List ℕ × D) (use_chain has_other_layers : Bool)
    (max_request_bytes vocab_size : ℕ) (adaptive : Bool) (k max_new : ℕ) where
  abbrev rest_of : ℕ → List ℕ → List ℕ
  rest_of =
      Round.rest_of greedy stop propose use_chain has_other_layers max_request_bytes vocab_size
        adaptive k max_new

  abbrev InStep : State D → Type 0
  InStep =
      Round.InStep greedy stop propose use_chain has_other_layers max_request_bytes vocab_size
        adaptive k max_new

  rest_step :
      (produced : ℕ) (c : List ℕ)
      → produced < max_new
      → rest_of produced c
        ≡ (if stop (greedy c) then [] else greedy c ∷ rest_of (produced + 1) (c ++ greedy c ∷ []))
  rest_step =
      Round.rest_step greedy stop propose use_chain has_other_layers max_request_bytes vocab_size
        adaptive k max_new

  abbrev IsSettled : State D → Outcome D → Type 0
  IsSettled =
      Settled.IsSettled greedy stop propose use_chain has_other_layers max_request_bytes vocab_size
        adaptive k max_new

  settled-IsRound :
      (s s2 : State D) (o : Outcome D)
      → rest_of s.produced s.context ≡ s2.last ∷ rest_of s2.produced s2.context
      → s.produced < s2.produced
      → IsSettled s2 o
      → Round.IsRound greedy stop propose use_chain has_other_layers max_request_bytes vocab_size
          adaptive k max_new s o
  settled-IsRound s s2 (ended ts e stats) r up (fine, out) = (fine, r ∙ out)
  settled-IsRound s s2 (continued ts s') r up (step, more, out) = (step, omega arith, r ∙ out)

  batch_fits :
      (s : State D)
      → ((c : List ℕ) → greedy c < vocab_size)
      → (use_chain ≡ true → IsChainDrafter propose max_request_bytes vocab_size k)
      → InStep s
      → check_chain use_chain max_request_bytes true (
          s.last
          ∷ (Loop.draft greedy stop propose use_chain has_other_layers max_request_bytes vocab_size
              adaptive k max_new s).1)
        ≡ ok tt
  batch_fits s vocab chain i =
      let want = min s.cur_k (max_new - (s.produced + 1)) in
      let known : s.last < vocab_size = let v = vocab s.context in let l = i.last in omega arith in
      let few : want ≤ k = let b = i.bounded in omega arith in
      check_chain-drafts propose max_request_bytes vocab_size k use_chain s.last s.drafter
        (s.context ++ s.last ∷ []) want chain known few

  round-IsRound :
      (s : State D)
      → ((c : List ℕ) → greedy c < vocab_size)
      → (use_chain ≡ true → IsChainDrafter propose max_request_bytes vocab_size k)
      → has_other_layers ≡ false
      → 0 < k
      → InStep s
      → Round.IsRound greedy stop propose use_chain has_other_layers max_request_bytes vocab_size
          adaptive k max_new s
          (Loop.round greedy stop propose use_chain has_other_layers max_request_bytes vocab_size
            adaptive k max_new s)
  unfolding Loop.round
  round-IsRound s vocab chain own pk i = elim (Bool-cases (stop s.last)) [
    | inl e ↦
        rw (e, Loop.round)
          (refl, ground (arith, rest_step s.produced s.context i.going, i.last, ap stop i.last))
    | inr e ↦ elim (Bool-cases (s.produced + 1 == max_new)) [
      | inl full ↦
          rw (e, Loop.round)
            (rw (full, Loop.round)
              (
                refl,
                ground (
                  arith,
                  rest_step s.produced s.context i.going,
                  i.last,
                  ap stop i.last,
                  Round.rest_end greedy stop propose use_chain has_other_layers max_request_bytes
                      vocab_size adaptive k max_new (s.produced + 1)
                      (s.context ++ greedy s.context ∷ []),
                ),
              ))
      | inr more ↦
          rw (e, Loop.round)
            (rw (more, Loop.round)
              (settled-IsRound s
                (Loop.draft greedy stop propose use_chain has_other_layers max_request_bytes
                  vocab_size adaptive k max_new s).0
                _ (ground (arith, rest_step s.produced s.context i.going, i.last, ap stop i.last))
                (omega arith)
                (Settled.check_drafts-IsSettled greedy stop propose use_chain has_other_layers
                  max_request_bytes vocab_size adaptive k max_new _ _ s.context
                  (batch_fits s vocab chain i) vocab own refl i.held i.pos i.started (ground arith)
                  pk i.bounded)))
    ]
  ]

  -- The rest of the stream from a state in step, whatever the drafter proposes.
  spec_loop_lem :
      (fuel : ℕ) (s : State D)
      → ((c : List ℕ) → greedy c < vocab_size)
      → (use_chain ≡ true → IsChainDrafter propose max_request_bytes vocab_size k)
      → has_other_layers ≡ false
      → 0 < k
      → InStep s
      → max_new - s.produced ≤ fuel
      → (Loop.spec_loop greedy stop propose use_chain has_other_layers max_request_bytes vocab_size
          adaptive k max_new fuel s).0
        ≡ record { tokens = rest_of s.produced s.context; end = finished }
  unfolding Loop.spec_loop
  spec_loop_lem zero s vocab chain own pk i enough = absurd (omega (arith, i.going))
  spec_loop_lem (suc fuel) s vocab chain own pk i enough =
      go
        (Loop.round greedy stop propose use_chain has_other_layers max_request_bytes vocab_size
          adaptive k max_new s)
        refl (round-IsRound s vocab chain own pk i)
        (λ s' j up. spec_loop_lem fuel s' vocab chain own pk j (omega arith))
    where
      go :
          (o : Outcome D)
          → Loop.round greedy stop propose use_chain has_other_layers max_request_bytes vocab_size
              adaptive k max_new s
            ≡ o
          → Round.IsRound greedy stop propose use_chain has_other_layers max_request_bytes
              vocab_size adaptive k max_new s o
          → ((s' : State D)
              → InStep s'
              → s.produced < s'.produced
              → (Loop.spec_loop greedy stop propose use_chain has_other_layers max_request_bytes
                  vocab_size adaptive k max_new fuel s').0
                ≡ record { tokens = rest_of s'.produced s'.context; end = finished })
          → (Loop.spec_loop greedy stop propose use_chain has_other_layers max_request_bytes
              vocab_size adaptive k max_new
              (suc fuel)
              s).0
            ≡ record { tokens = rest_of s.produced s.context; end = finished }
      go (ended ts e stats) is (fine, out) ih = rw (is, Loop.spec_loop) (cc (fine, out))
      go (continued ts s') is (step, up, out) ih =
          rw (is, Loop.spec_loop) (rw (ih s' step up) (cc out))

  last_of-replies :
      (base : List ℕ) (t : ℕ) (ts : List ℕ)
      → last_of (replies greedy base (t ∷ ts)) ≡ ok (greedy (base ++ t ∷ ts))
  unfolding replies
  last_of-replies base t [] = refl
  last_of-replies base t (u ∷ us) = last_of-replies (base ++ t ∷ []) u us ∙ rw append_assoc

  -- A trip that starts where the session ends gives the greedy token after all that is held then.
  trip_lem :
      (held : List ℕ) (t : ℕ) (ts : List ℕ) (pos : ℕ)
      → pos ≡ length held
      → trip greedy held (t ∷ ts) pos ≡ ok (greedy (held ++ t ∷ ts), held ++ t ∷ ts)
  unfolding trip forward
  trip_lem [] t ts pos at = ground (arith, last_of-replies [] t ts)
  trip_lem (x ∷ xs) t ts pos at = ground (arith, last_of-replies (x ∷ xs) t ts)

  plain_loop_lem :
      (fuel produced : ℕ) (held : List ℕ) (t : ℕ) (ts : List ℕ) (pos : ℕ)
      → pos ≡ length held
      → produced < max_new
      → max_new - produced ≤ fuel
      → plain_loop greedy stop fuel max_new produced held (t ∷ ts) pos
        ≡ record { tokens = rest_of produced (held ++ t ∷ ts); end = finished }
  unfolding plain_loop
  plain_loop_lem zero produced held t ts pos at h enough = absurd (omega arith)
  plain_loop_lem (suc fuel) produced held t ts pos at h enough =
      let c = held ++ t ∷ ts in
      let next = greedy c in
      rw (trip_lem held t ts pos at, plain_loop)
        (elim (Bool-cases (stop next)) [
          | inl e ↦ rw e (ground (arith, rest_step produced c h))
          | inr e ↦ elim (Bool-cases (produced + 1 == max_new)) [
            | inl full ↦
                rw (e, full)
                  (ground (
                    arith,
                    rest_step produced c h,
                    Round.rest_end greedy stop propose use_chain has_other_layers max_request_bytes
                        vocab_size adaptive k max_new (produced + 1) (c ++ next ∷ []),
                  ))
            | inr more ↦
                rw (e, more)
                  (rw
                    (plain_loop_lem fuel (produced + 1) c next [] (pos + length (t ∷ ts))
                      (omega (arith, length-append held (t ∷ ts))) (ground arith) (omega arith))
                    (ground (arith, rest_step produced c h)))
          ]
        ])

  module _ (t : ℕ) (ts : List ℕ) where
    -- Plain greedy decoding of a prompt yields the greedy tokens after it, at most `max_new` of
    -- them, up to a stop token, and finishes.
    pub generate_stream-greedy :
        generate_stream greedy stop (t ∷ ts) max_new
        ≡ record { tokens = greedy_tokens greedy stop max_new (t ∷ ts); end = finished }
    unfolding generate_stream greedy_tokens
    generate_stream-greedy = elim (Bool-cases (ltb max_new 1)) [
      | inl none_asked ↦ let z : max_new ≡ 0 = ground arith in rw z refl
      | inr asked ↦
          let e : max_new - 0 ≡ max_new = omega arith in
          rw asked
            (plain_loop_lem max_new 0 [] t ts 0 refl (ground arith) (omega arith) ∙ rw e refl)
    ]

    speculative_stream-greedy :
        (d : D)
        → ((c : List ℕ) → greedy c < vocab_size)
        → 0 < k
        → has_other_layers ≡ false
        → (use_chain ≡ true → IsChainDrafter propose max_request_bytes vocab_size k)
        → (use_chain ≡ true → IsChainPrompt (t ∷ ts))
        → (Loop.speculative_stream greedy stop propose use_chain has_other_layers max_request_bytes
            vocab_size adaptive k max_new d
            (t ∷ ts)).0
          ≡ record { tokens = greedy_tokens greedy stop max_new (t ∷ ts); end = finished }
    unfolding Loop.speculative_stream Loop.start greedy_tokens
    speculative_stream-greedy d vocab some_k own chain prompt =
        let k_ok : ltb k 1 ≡ false = ground arith in
        elim (Bool-cases (ltb max_new 1)) [
          | inl none_asked ↦ let z : max_new ≡ 0 = ground arith in rw (k_ok, none_asked) (rw z refl)
          | inr asked ↦
              let e : max_new - 0 ≡ max_new = omega arith in
              rw (k_ok, asked)
                (rw
                  (
                    check_chain-prompt use_chain max_request_bytes (t ∷ ts) prompt,
                    trip_lem [] t ts 0 refl,
                    ◌>>=◌,
                  )
                  (spec_loop_lem max_new _ vocab chain own some_k
                      (record {
                        held = refl;
                        pos = refl;
                        started = omega arith;
                        last = refl;
                        going = ground arith;
                        bounded = omega arith;
                      })
                      (omega arith)
                    ∙ rw e refl))
        ]

    -- Every greedy token is in the vocabulary, k is positive and the blocks have attention layers
    -- only; and if the final peer checks the
    -- drafts, then the prompt has at most 4096 tokens, one request takes more than k, and the tokens
    -- of the prompt, of the vocabulary and of the drafter are ids of 32 bits. Then speculative
    -- decoding yields exactly the tokens of plain greedy decoding and finishes, whatever tokens the
    -- drafter proposes, and with or without adaptation.
    pub speculative_stream-generate_stream :
        (d : D)
        → ((c : List ℕ) → greedy c < vocab_size)
        → 0 < k
        → has_other_layers ≡ false
        → (use_chain ≡ true → IsChainDrafter propose max_request_bytes vocab_size k)
        → (use_chain ≡ true → IsChainPrompt (t ∷ ts))
        → ((Loop.speculative_stream greedy stop propose use_chain has_other_layers max_request_bytes
              vocab_size adaptive k max_new d
              (t ∷ ts)).0
            ≡ generate_stream greedy stop (t ∷ ts) max_new)
          × ((generate_stream greedy stop (t ∷ ts) max_new).end ≡ finished)
    speculative_stream-generate_stream d vocab some_k own chain prompt = (
      speculative_stream-greedy d vocab some_k own chain prompt ∙ sym generate_stream-greedy,
      ap (λ (s : Stream). s.end) generate_stream-greedy,
    )
