-- ===== src/Speculative/Follows.antt =====
-- The greedy tokens after a context, drafts that follow them, and what verification makes of drafts.
use mathlib.Core.List.{append_assoc, append-nil}
use common_network.Prelude.{
  ℕ, zero, suc, ◌+◌, ◌≤◌, ◌<◌, ◌≡◌, refl, ap, ◌∙◌, List, [], ◌∷◌, ◌++◌, length, take, Bool, true,
  if◌then◌else◌, ◌==◌, number_eq, same_number_iff, some, arith, Bool-cases, inl, inr,
}
use common_network.Speculative.Session.{ok, get_elem?, replies}
use common_network.Speculative.Verify.{matching, final_answer, same, verified_prefix, verify}

module _ (greedy : List ℕ → ℕ) where
  -- Up to `n` greedy tokens after `c`, until a stop token.
  unfoldable pub greedy_tokens : (ℕ → Bool) → ℕ → List ℕ → List ℕ
  greedy_tokens stop zero c = []
  greedy_tokens stop (suc n) c =
      let rest = greedy_tokens stop n (c ++ greedy c ∷ []) in
      if stop (greedy c) then [] else greedy c ∷ rest

  -- Each token is the greedy one after `c` and the tokens before it.
  abbrev pub Follows : List ℕ → List ℕ → Type 0
  Follows c [] = Unit
  Follows c (d ∷ ds) = (d ≡ greedy c) × Follows (c ++ d ∷ []) ds

  -- What verification promises of the number `m` of accepted drafts and of the token after them.
  pub record IsVerified (c drafts : List ℕ) (m next : ℕ) : Type 0 where
    pub bound : m ≤ length drafts
    pub follows : Follows c (take m drafts)
    pub next_greedy : next ≡ greedy (c ++ take m drafts)

  pub matching-Follows :
      (c drafts : List ℕ)
      → (matching drafts (greedy c ∷ replies greedy c drafts) ≤ length drafts)
        × Follows c (take (matching drafts (greedy c ∷ replies greedy c drafts)) drafts)
        × (get_elem?
              (greedy c ∷ replies greedy c drafts)
              (matching drafts (greedy c ∷ replies greedy c drafts))
            ≡ some
                (greedy (c ++ take (matching drafts (greedy c ∷ replies greedy c drafts)) drafts)))
  unfolding matching replies
  matching-Follows c [] = (omega arith, tt, rw append-nil refl)
  matching-Follows c (d ∷ ds) = elim (Bool-cases (d == greedy c)) [
    | inl e ↦
        let (bound, follows, next) = matching-Follows (c ++ d ∷ []) ds in
        rw e (omega arith, ((same_number_iff d (greedy c)).0 e, follows), next ∙ rw append_assoc)
    | inr e ↦ rw e (omega arith, tt, rw append-nil refl)
  ]

prefix_lem :
    (m : ℕ) (xs : List ℕ) (y : ℕ)
    → m ≤ length xs
    → (length (take m xs ++ y ∷ []) ≡ m + 1)
      × (take m (take m xs ++ y ∷ []) ≡ take m xs)
      × (get_elem? (take m xs ++ y ∷ []) m ≡ some y)
prefix_lem zero xs y h = (refl, refl, refl)
prefix_lem (suc m) [] y h = absurd (omega arith)
prefix_lem (suc m) (x ∷ xs) y h =
    let (len, pre, at_end) = prefix_lem m xs y (omega arith) in
    (omega arith, ap (◌∷◌ x) pre, at_end)

same_refl : (xs : List ℕ) → same xs xs ≡ true
unfolding same
same_refl [] = refl
same_refl (x ∷ xs) = ground (arith, same_refl xs)

-- The final peer's own answer passes the client's check.
verified_prefix_lem :
    (drafts : List ℕ) (m next vocab_size : ℕ)
    → m ≤ length drafts
    → next < vocab_size
    → verified_prefix
        (record { ids = take m drafts ++ next ∷ []; accepted = m; next = next })
        drafts
        vocab_size
      ≡ ok (m, next)
unfolding verified_prefix
verified_prefix_lem drafts m next vocab_size h v =
    let (len, pre, at_end) = prefix_lem m drafts next h in
    rw (len, pre, at_end, same_refl (take m drafts)) (ground arith)

module _ (greedy : List ℕ → ℕ) (use_chain : Bool) (vocab_size : ℕ) where
  -- Both ways to check a draft accept the longest prefix that follows greedily.
  pub verify-IsVerified :
      ((c : List ℕ) → greedy c < vocab_size)
      → (c drafts : List ℕ)
      → (m next : ℕ) × (verify use_chain vocab_size drafts (greedy c ∷ replies greedy c drafts)
          ≡ ok (m, next))
        × IsVerified greedy c drafts m next
  unfolding verify final_answer
  verify-IsVerified vocab c drafts =
      let out = greedy c ∷ replies greedy c drafts in
      let m = matching drafts out in
      let (bound, follows, next) = matching-Follows greedy c drafts in
      (
        m,
        greedy (c ++ take m drafts),
        ground (
          arith,
          next,
          verified_prefix_lem drafts m (greedy (c ++ take m drafts)) vocab_size bound (vocab _),
        ),
        record { bound = bound; follows = follows; next_greedy = refl },
      )
