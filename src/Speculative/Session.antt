-- ===== src/Speculative/Session.antt =====
-- The session that a route holds for one client: commonnet/block.py `forward` and `cut_back`.
-- The layers are a parameter: `greedy c` is the token of the highest logit after the tokens `c`.
-- A session's caches stand for the tokens that went through the layers, which `held` lists. The
-- servers that use it hold the sessions of blocks with attention layers only.
use common_network.Prelude.{
  ℕ, List, [], ◌∷◌, ◌++◌, length, take, if◌then◌else◌, ◌==◌, number_eq, Option, none, some, zero,
  suc, Bool, false, leb, ◌≡◌, refl, arith, Bool-cases, inl, inr, take-all,
}

pub data StepError : Type 0 where
  -- the session holds another number of tokens than the step starts at
  wrong_position : StepError
  -- the final peer's answer breaks the rules of `_verified_prefix`
  malformed_answer : StepError
  -- an index past the end of the returned tokens
  index_error : StepError
  -- the token ids of a chain's step are too many or too high, or the drafts too many for one step
  bad_chain_ids : StepError
  batch_too_long : StepError
  -- the cache of the block cannot be cut
  not_implemented : StepError
  empty_prompt : StepError
  bad_k : StepError

pub data Result {ℓ} (A : Type ℓ) : Type ℓ where
  ok : A → Result A
  err : StepError → Result A

infixl 5 ◌>>=◌
abbrev pub ◌>>=◌ {ℓ κ} : {A : Type ℓ} {B : Type κ} → Result A → (A → Result B) → Result B
ok a >>= f = f a
err e >>= f = err e

infixl 5 ◌>>◌
abbrev pub ◌>>◌ {κ} : {B : Type κ} → Result (Unit {0}) → Result B → Result B
m >> k = m >>= λ _. k

abbrev pub get_elem? : List ℕ → ℕ → Option ℕ
get_elem? [] i = none
get_elem? (x ∷ xs) zero = some x
get_elem? (x ∷ xs) (suc i) = get_elem? xs i

-- `xs[i]`
abbrev pub index : List ℕ → ℕ → Result ℕ
index xs i = elim (get_elem? xs i) [ none ↦ err index_error | some x ↦ ok x ]

module _ (greedy : List ℕ → ℕ) where
  -- The greedy token after each position of the tokens that are fed.
  unfoldable pub replies : List ℕ → List ℕ → List ℕ
  replies base [] = []
  replies base (t ∷ ts) = greedy (base ++ t ∷ []) ∷ replies (base ++ t ∷ []) ts

  -- A step at position 0 starts the session anew; any other continues where the session ends.
  -- The answer has the tokens after every fed position, and the session that is held afterwards.
  unfoldable pub forward : List ℕ → List ℕ → ℕ → Result (List ℕ × List ℕ)
  forward held tokens start_pos =
      if start_pos == 0
      then ok (replies [] tokens, tokens)
      else if length held == start_pos
      then ok (replies held tokens, held ++ tokens)
      else err wrong_position

-- Cut the caches of attention layers back to `n` positions; a cut past the end changes nothing.
unfoldable pub cut_back : List ℕ → ℕ → List ℕ
cut_back held n = take n held

-- `truncate` of a session that is held. The cache of a block with other layers is not cut.
unfoldable pub truncate : Bool → List ℕ → ℕ → Result (List ℕ)
truncate has_other_layers held n =
    if leb (length held) n
    then ok held
    else if has_other_layers
    then err not_implemented
    else ok (cut_back held n)

-- In a block of attention layers the cut is never refused.
pub truncate-cut_back : (held : List ℕ) (n : ℕ) → truncate false held n ≡ ok (cut_back held n)
unfolding truncate cut_back
truncate-cut_back held n = elim (Bool-cases (leb (length held) n)) [
  | inl e ↦ rw (e, take-all n held (ground arith)) refl
  | inr e ↦ rw e refl
]
