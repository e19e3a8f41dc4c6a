-- ===== src/Speculative/Chain.antt =====
-- The checks of commonnet/net/transport.py `chain_step` pass: ids of 32 bits, no more drafts than one
-- request takes.
use common_network.Prelude.{
  ℕ, suc, ◌^◌, ◌≤◌, ◌<◌, ◌≡◌, refl, List, [], ◌∷◌, length, take, Bool, true, false, arith, ltb, leb,
  all, All, number_eq, length-take, All-take,
}
use common_network.Speculative.Session.{ok}
use common_network.Speculative.Loop.{max_token_id, chain_chunk, are_chain_ids, check_chain, adapt}

-- The route takes `k` drafts in one request, and every token of the model and of the drafter is an
-- id of 32 bits.
pub record IsChainDrafter {D : Type 0} (propose : D → List ℕ → ℕ → List ℕ × D)
    (max_request_bytes vocab_size k : ℕ) : Type 0 where
  pub fits : k < chain_chunk max_request_bytes
  pub vocabulary : vocab_size ≤ 2 ^ 32
  pub proposed : (d : D) (c : List ℕ) (n : ℕ) → All (λ t. t < 2 ^ 32) (propose d c n).0

-- A chain takes at most 4096 ids of 32 bits at once.
pub record IsChainPrompt (prompt : List ℕ) : Type 0 where
  pub short : length prompt ≤ 4096
  pub small : All (λ t. t < 2 ^ 32) prompt

chain_chunk_bound : (bytes : ℕ) → chain_chunk bytes ≤ 256
unfolding chain_chunk
chain_chunk_bound bytes = ground arith

all-All : (xs : List ℕ) → All (λ t. t < 2 ^ 32) xs → all (λ t. leb t max_token_id) xs ≡ true
all-All [] h = refl
all-All (x ∷ xs) h = ground (arith, all-All xs)

pub check_chain-prompt :
    (use_chain : Bool) (bytes : ℕ) (prompt : List ℕ)
    → (use_chain ≡ true → IsChainPrompt prompt)
    → check_chain use_chain bytes false prompt ≡ ok tt
unfolding check_chain are_chain_ids
check_chain-prompt false bytes prompt h = refl
check_chain-prompt true bytes prompt h =
    let p : IsChainPrompt prompt = h refl in
    let size : leb (length prompt) 4096 ≡ true = let q = p.short in ground arith in
    rw (size, all-All prompt p.small) refl

module _ {D : Type 0} (propose : D → List ℕ → ℕ → List ℕ × D)
    (max_request_bytes vocab_size k : ℕ) where
  pub check_chain-drafts :
      (use_chain : Bool) (last : ℕ) (d : D) (c : List ℕ) (n : ℕ)
      → (use_chain ≡ true → IsChainDrafter propose max_request_bytes vocab_size k)
      → last < vocab_size
      → n ≤ k
      → check_chain use_chain max_request_bytes true (last ∷ take n (propose d c n).0) ≡ ok tt
  unfolding check_chain are_chain_ids
  check_chain-drafts false last d c n h l b = refl
  check_chain-drafts true last d c n h l b =
      let p : IsChainDrafter propose max_request_bytes vocab_size k = h refl in
      let drafts : List ℕ = take n (propose d c n).0 in
      let count : length drafts ≤ n = omega (arith, length-take n (propose d c n).0) in
      let few : suc (length drafts) ≤ chain_chunk max_request_bytes = omega (arith, p.fits) in
      let size : leb (suc (length drafts)) 4096 ≡ true =
        let q = chain_chunk_bound max_request_bytes in ground arith in
      let one : leb last max_token_id ≡ true = let q = p.vocabulary in ground arith in
      let ids : all (λ t. leb t max_token_id) drafts ≡ true =
        all-All drafts (All-take _ n (propose d c n).0 (p.proposed d c n)) in
      let batch : ltb (chain_chunk max_request_bytes) (suc (length drafts)) ≡ false =
        ground arith in
      rw (size, one, ids, batch) refl

-- The adaptation stays within `k`.
pub adapt_bound :
    (adaptive : Bool) (k cur_k m n : ℕ) → 0 < k → cur_k ≤ k → adapt adaptive k cur_k m n ≤ k
unfolding adapt
adapt_bound adaptive k cur_k m n p h = ground arith
