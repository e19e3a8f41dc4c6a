-- ===== src/Net/Chain/Reply/Answered.antt =====
-- The reply of the last peer passes the check of the peer before it.
use common_network.Prelude.{
  ℕ, zero, suc, ◌+◌, ◌≤◌, ◌<◌, ◌≡◌, refl, true, some, List, [], ◌∷◌, ◌++◌, arith, ◌==◌, text_eq,
  number_eq, length, take, All, All-append, All-take, length-take, length-append,
}
use mathlib.Core.Path.{subst}
use common_network.Prelude.Result.{ok}
use common_network.Net.Json.{obj}
use common_network.Net.Protocol.{fields_of}
use common_network.Net.Chain.Ids.{ids-ok, HasIds, HasDrafts, max_chain_tokens, max_token_id}
use common_network.Speculative.Verify.{Answer, final_answer, matching}
use common_network.Net.Chain.Reply.{
  last, is_last, check_accepted, check_next, check_verified, check_reply, answer_reply,
}
use common_network.Speculative.Session as Session

last-append : (xs : List ℕ) (t : ℕ) → last (xs ++ t ∷ []) ≡ some t
unfolding last
last-append [] t = refl
last-append (x ∷ []) t = refl
last-append (x ∷ y ∷ xs) t = last-append (y ∷ xs) t

full :
    (a : Answer) (kept : List ℕ)
    → a.ids ≡ kept ++ a.next ∷ []
    → length kept ≡ a.accepted
    → (a.accepted + 1 == length a.ids) ≡ true
full a kept e n =
    (number_eq.agrees _ _).1 (rw e (omega (arith, length-append kept (a.next ∷ []), n)))

ends : (a : Answer) (kept : List ℕ) → a.ids ≡ kept ++ a.next ∷ [] → is_last a.next a.ids ≡ true
ends a kept e = rw (e, is_last, last-append kept a.next) ((number_eq.agrees _ _).1 refl)

All-last : (P : ℕ → Type 0) (xs : List ℕ) (t : ℕ) → All P (xs ++ t ∷ []) → P t
All-last P [] t h = h.0
All-last P (x ∷ xs) t h = All-last P xs t h.1

one :
    (a : Answer) (kept : List ℕ) → a.ids ≡ kept ++ a.next ∷ [] → HasIds a.ids → HasIds (a.next ∷ [])
one a kept e h = (
  omega arith,
  omega arith,
  (
    All-last (λ (t : ℕ). t ≤ max_token_id) kept a.next
        (subst (All (λ (t : ℕ). t ≤ max_token_id)) e h.2),
    tt,
  ),
)

matching-le : (ds out : List ℕ) → matching ds out ≤ length ds
unfolding matching
matching-le [] out = omega arith
matching-le (d ∷ ds) [] = omega arith
matching-le (d ∷ ds) (g ∷ out) = ground (arith, matching-le ds out)

get_elem?-in :
    (P : ℕ → Type 0) (xs : List ℕ) (i : ℕ)
    → All P xs
    → i < length xs
    → (t : ℕ) × ((Session.get_elem? xs i ≡ some t) × P t)
get_elem?-in P [] i h k = absurd (omega arith)
get_elem?-in P (x ∷ xs) zero h k = (x, (refl, h.0))
get_elem?-in P (x ∷ xs) (suc i) h k = get_elem?-in P xs i h.1 (omega arith)

-- The drafts before a mismatch and the token there are ids within the limits.
kept-HasIds :
    (drafts : List ℕ) (m t : ℕ)
    → HasDrafts drafts
    → length drafts < max_chain_tokens
    → t ≤ max_token_id
    → HasIds (take m drafts ++ t ∷ [])
kept-HasIds drafts m t h l k = (
  omega (arith, length-append (take m drafts) (t ∷ [])),
  omega (arith, length-append (take m drafts) (t ∷ []), length-take m drafts),
  All-append (λ (u : ℕ). u ≤ max_token_id) (take m drafts) (t ∷ [])
      (All-take (λ (u : ℕ). u ≤ max_token_id) m drafts h.1) (k, tt),
)

final_answer-ok :
    (drafts out : List ℕ) (t : ℕ)
    → Session.get_elem? out (matching drafts out) ≡ some t
    → final_answer drafts out
      ≡ Session.ok (record {
        ids = take (matching drafts out) drafts ++ t ∷ [];
        accepted = matching drafts out;
        next = t;
      })
unfolding final_answer
final_answer-ok drafts out t e = rw (final_answer, Session.index, e) refl

module _ (Real : Type 0) where
  -- An answer that is a prefix and the next token passes the check as it is.
  pub check_reply-answer_reply :
      (a : Answer) (kept : List ℕ)
      → a.ids ≡ kept ++ a.next ∷ []
      → length kept ≡ a.accepted
      → HasIds a.ids
      → check_reply {Real = Real} (obj (answer_reply a))
        ≡ ok (record {
          ids = a.ids;
          verified = some (record { accepted = a.accepted; next = a.next });
        })
  unfolding check_reply answer_reply check_verified check_accepted check_next fields_of
  check_reply-answer_reply a kept e n h =
      rw
        (
          ids-ok Real a.ids h,
          full a kept e n,
          ids-ok Real (a.next ∷ []) (one a kept e h),
          ends a kept e,
        )
        refl

  answered :
      (drafts out : List ℕ) (t : ℕ)
      → Session.get_elem? out (matching drafts out) ≡ some t
      → t ≤ max_token_id
      → HasDrafts drafts
      → length drafts < max_chain_tokens
      → (a : Answer) × ((final_answer drafts out ≡ Session.ok a)
          × (check_reply {Real = Real} (obj (answer_reply a))
              ≡ ok (record {
                ids = a.ids;
                verified = some (record { accepted = a.accepted; next = a.next });
              })))
  answered drafts out t e w h l =
      let m = matching drafts out in
      let a : Answer = record { ids = take m drafts ++ t ∷ []; accepted = m; next = t } in
      (
        a,
        (
          final_answer-ok drafts out t e,
          check_reply-answer_reply a (take m drafts) refl
              (omega (arith, length-take m drafts, matching-le drafts out))
              (kept-HasIds drafts m t h l w),
        ),
      )

  -- For drafts within the limits, fewer than a chain takes, and a layer output of one token more,
  -- each of 32 bits, the last peer has an answer, and its reply passes the check and says the same.
  pub check_reply-final_answer :
      (drafts out : List ℕ)
      → HasDrafts drafts
      → length drafts < max_chain_tokens
      → length out ≡ length drafts + 1
      → All (λ (t : ℕ). t ≤ max_token_id) out
      → (a : Answer) × ((final_answer drafts out ≡ Session.ok a)
          × (check_reply {Real = Real} (obj (answer_reply a))
              ≡ ok (record {
                ids = a.ids;
                verified = some (record { accepted = a.accepted; next = a.next });
              })))
  check_reply-final_answer drafts out h l n k =
      let (t, (e, w)) =
        get_elem?-in (λ (u : ℕ). u ≤ max_token_id) out (matching drafts out) k
          (omega (arith, matching-le drafts out)) in
      answered drafts out t e w h l
