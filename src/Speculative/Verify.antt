-- ===== src/Speculative/Verify.antt =====
-- The check of a draft: in the final peer (commonnet/net/chain.py `run`), of its answer
-- (`_verified_prefix`) and on the client (`speculative_stream`), both of commonnet/speculative.py.
use common_network.Prelude.{
  ℕ, suc, ◌+◌, List, [], ◌∷◌, ◌++◌, length, take, Bool, true, false, ◌&&◌, if◌then◌else◌, ◌==◌,
  number_eq, ltb, leb, Option, none, some,
}
use common_network.Speculative.Session.{Result, ok, err, malformed_answer, ◌>>=◌, index, get_elem?}

-- `while m < len(drafts) and drafts[m] == greedy[m]: m += 1`, over tokens that are long enough
unfoldable pub matching : List ℕ → List ℕ → ℕ
matching [] out = 0
matching (d ∷ ds) [] = 0
matching (d ∷ ds) (g ∷ out) = let more = suc (matching ds out) in if d == g then more else 0

pub record Answer : Type 0 where
  pub ids : List ℕ
  pub accepted : ℕ
  pub next : ℕ

-- What the final peer returns for `drafts` when its layers give `out`.
unfoldable pub final_answer : List ℕ → List ℕ → Result Answer
final_answer drafts out = do
  let m = matching drafts out
  next ← index out m
  ok (record { ids = take m drafts ++ next ∷ []; accepted = m; next = next })

unfoldable pub same : List ℕ → List ℕ → Bool
same [] [] = true
same (x ∷ xs) (y ∷ ys) = x == y && same xs ys
same _ _ = false

abbrev pub ends_with : ℕ → Option ℕ → Bool
ends_with n none = false
ends_with n (some x) = x == n

-- `_verified_prefix`, for an answer whose fields have the right types.
unfoldable pub verified_prefix : Answer → List ℕ → ℕ → Result (ℕ × ℕ)
verified_prefix a drafts vocab_size =
    if leb a.accepted (length drafts)
      && ltb a.next vocab_size
      && length a.ids == a.accepted + 1
      && same (take a.accepted a.ids) (take a.accepted drafts)
      && ends_with a.next (get_elem? a.ids a.accepted)
    then ok (a.accepted, a.next)
    else err malformed_answer

-- Accepted drafts and the token after them, by the chain's answer or by a comparison here.
unfoldable pub verify : Bool → ℕ → List ℕ → List ℕ → Result (ℕ × ℕ)
verify use_chain vocab_size drafts out =
    if use_chain
    then (do a ← final_answer drafts out; verified_prefix a drafts vocab_size)
    else (do let m = matching drafts out; next ← index out m; ok (m, next))
