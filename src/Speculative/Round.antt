-- ===== src/Speculative/Round.antt =====
-- One round of `speculative_stream` yields the next greedy tokens and keeps the session in step.
use mathlib.Core.List.{append_assoc, append-nil}
use native.Mathlib.Nat.{zero-add, suc-add}
use common_network.Prelude.{
  take-all, ℕ, suc, ◌+◌, ◌-◌, ◌≤◌, ◌<◌, ◌≡◌, refl, ap, sym, ◌∙◌, List, [], ◌∷◌, ◌++◌, length, take,
  Bool, true, false, if◌then◌else◌, ◌==◌, number_eq, arith, Bool-cases, ◌⊎◌, inl, inr, ltb,
}
use common_network.Speculative.Session.{ok, cut_back, truncate, truncate-cut_back}
use common_network.Speculative.Plain.{finished}
use common_network.Speculative.Loop
use common_network.Speculative.Loop.{State, Outcome, ended, continued, Emitted}
use common_network.Speculative.Follows.{greedy_tokens, Follows}

module _ {D : Type 0} (greedy : List ℕ → ℕ) (stop : ℕ → Bool)
    (propose : D → List ℕ → ℕ → List ℕ × D) (use_chain has_other_layers : Bool)
    (max_request_bytes vocab_size : ℕ) (adaptive : Bool) (k max_new : ℕ) where
  -- The tokens still to come when `produced` are out.
  abbrev pub rest_of : ℕ → List ℕ → List ℕ
  rest_of produced c = greedy_tokens greedy stop (max_new - produced) c

  pub rest_step :
      (produced : ℕ) (c : List ℕ)
      → produced < max_new
      → rest_of produced c
        ≡ (if stop (greedy c) then [] else greedy c ∷ rest_of (produced + 1) (c ++ greedy c ∷ []))
  unfolding greedy_tokens
  rest_step produced c h =
      let e : max_new - produced ≡ suc (max_new - (produced + 1)) = omega arith in rw e refl

  abbrev pub emit : List ℕ → ℕ → List ℕ → Emitted
  emit =
      Loop.emit greedy stop propose use_chain has_other_layers max_request_bytes vocab_size adaptive
        k max_new

  -- The loop over drafts that follow greedily yields what comes next, and goes on only in step.
  abbrev pub IsEmitted : List ℕ → ℕ → List ℕ → Emitted → Type 0
  IsEmitted ds produced c e =
      ((e.done ≡ true) × (rest_of produced c ≡ e.out))
      ⊎ ((e.done ≡ false)
          × (e.context ≡ c ++ ds)
          × (produced ≤ e.produced)
          × (e.produced < max_new)
          × (rest_of produced c ≡ e.out ++ rest_of e.produced e.context))

  pub rest_end : (produced : ℕ) (c : List ℕ) → produced ≡ max_new → rest_of produced c ≡ []
  unfolding greedy_tokens
  rest_end produced c h = let e : max_new - produced ≡ 0 = omega arith in rw e refl

  emit_more :
      (d : ℕ) (ds : List ℕ) (produced : ℕ) (c : List ℕ)
      → d ≡ greedy c
      → produced < max_new
      → stop d ≡ false
      → {e : Emitted} → IsEmitted ds (produced + 1) (c ++ d ∷ []) e
      → IsEmitted (d ∷ ds) produced c (Loop.emit_first d e)
  emit_more d ds produced c own h goes (inl (done, out)) =
      inl (done, ground (arith, rest_step produced c h))
  emit_more d ds produced c own h goes (inr (going, context, up, bound, out)) = inr (
    going,
    context ∙ append_assoc c (d ∷ []) ds,
    omega arith,
    bound,
    ground (arith, rest_step produced c h),
  )

  pub emit-IsEmitted :
      (ds : List ℕ) (produced : ℕ) (c : List ℕ)
      → Follows greedy c ds
      → produced < max_new
      → IsEmitted ds produced c (emit ds produced c)
  unfolding Loop.emit
  emit-IsEmitted [] produced c f h = inr (refl, sym (append-nil c), omega arith, h, refl)
  emit-IsEmitted (d ∷ ds) produced c f h = elim (Bool-cases (stop d)) [
    | inl e ↦ rw e (inl (refl, ground (arith, rest_step produced c h)))
    | inr e ↦ elim (Bool-cases (produced + 1 == max_new)) [
      | inl full ↦
          rw (e, full)
            (inl
              (refl, ground (arith, rest_step produced c h, rest_end (produced + 1) (c ++ d ∷ []))))
      | inr more ↦
          rw (e, more)
            (emit_more d ds produced c f.0 h e
              (emit-IsEmitted ds (produced + 1) (c ++ d ∷ []) f.1 (ground arith)))
    ]
  ]

  -- What holds at the head of the loop: the session holds the context, and `last` comes next.
  pub record InStep (s : State D) : Type 0 where
    pub held : s.held ≡ s.context
    pub pos : s.pos ≡ length s.context
    pub started : 0 < s.pos
    pub last : s.last ≡ greedy s.context
    pub going : s.produced < max_new
    pub bounded : s.cur_k ≤ k

  -- A round ends with what the greedy stream has left, or goes on in step behind it.
  abbrev pub IsRound : State D → Outcome D → Type 0
  IsRound s (ended ts e stats) = (e ≡ finished) × (rest_of s.produced s.context ≡ ts)
  IsRound s (continued ts s') =
      InStep s'
      × (s.produced < s'.produced)
      × (rest_of s.produced s.context ≡ ts ++ rest_of s'.produced s'.context)

  take-append : (xs ys : List ℕ) (n : ℕ) → take (length xs + n) (xs ++ ys) ≡ xs ++ take n ys
  take-append [] ys n = rw zero-add
  take-append (x ∷ xs) ys n = rw suc-add (ap (◌∷◌ x) (take-append xs ys n))

  -- The roll-back leaves exactly the accepted tokens in the session.
  pub rolled_back :
      (context drafts : List ℕ) (pos m : ℕ)
      → has_other_layers ≡ false
      → pos + 1 ≡ length context
      → m ≤ length drafts
      → (if ltb m (length drafts)
          then truncate has_other_layers (context ++ drafts) (pos + 1 + m)
          else ok (context ++ drafts))
        ≡ ok (context ++ take m drafts)
  unfolding cut_back
  rolled_back context drafts pos m own e h = elim (Bool-cases (ltb m (length drafts))) [
    | inl cut ↦
        rw (cut, own, truncate-cut_back (context ++ drafts) (pos + 1 + m), e)
          (ap ok (take-append context drafts m))
    | inr whole ↦ rw (whole, take-all m drafts (ground arith)) refl
  ]
