-- ===== src/Net/Chain/Reply.antt =====
-- commonnet/net/chain.py: the reply of the last peer and its check.
pub mod Answered
use common_network.Prelude.{
  ℕ, zero, suc, ◌+◌, ◌-◌, ◌*◌, ◌/◌, ◌%◌, ◌^◌, ◌≤◌, ◌<◌, min, max, String, ◌≡◌, refl, sym, ap, ◌∙◌,
  ◌≢◌, ◌↔◌, ◌⊎◌, inl, inr, Bool, true, false, ◌&&◌, ◌||◌, not, Option, none, some, List, [], ◌∷◌,
  ◌++◌, map, reverse, arith, ltb, leb, same_number, if◌then◌else◌, ◌==◌, text_eq, number_eq, length,
  take, drop, keep_if, count_if, any, all, All, ltb→lt, ltb→ge, leb→le, leb→gt, Bool-cases,
  Option-cases, either_of, by_test, length-append, length-map, map-append,
}
use mathlib.Core.Path.{subst}
use common_network.Prelude.Result.{
  Result, ok, err, ◌>>=◌, ◌>>◌, guard, Gives, Gives->>=, Gives-guard, Gives-any, Gives-weaker,
}
use common_network.Net.Json.{
  Raised, protocol_error, Json, null, int, text, arr, obj, Items, nil, cons, int_items, Fields, end,
  field, item, get, has,
}
use common_network.Net.Protocol.{refused, fields_of}
use common_network.Net.Chain.Ids.{ids, ids-ok, HasIds, max_chain_tokens, max_token_id}
use common_network.Speculative.Verify.{Answer, final_answer, matching}

pub record Verified : Type 0 where
  pub accepted : ℕ
  pub next : ℕ

pub record Reply : Type 0 where
  pub ids : List ℕ
  pub verified : Option Verified

-- `result["ids"][-1]` of some ids
unfoldable pub last : List ℕ → Option ℕ
last [] = none
last (t ∷ []) = some t
last (t ∷ u ∷ ts) = last (u ∷ ts)

abbrev pub is_last : ℕ → List ℕ → Bool
is_last next ts = elim (last ts) [ none ↦ false | some t ↦ next == t ]

module _ {Real : Type 0} where
  unfoldable pub check_accepted : List ℕ → Json Real → Result Raised ℕ
  check_accepted ts (int accepted) =
      if accepted + 1 == length ts then ok accepted else refused "invalid accepted prefix length"
  check_accepted ts _ = refused "invalid accepted prefix length"

  -- The next token, which `ids([nxt])` checks and which is the last of the ids.
  unfoldable pub check_next : List ℕ → Json Real → Result Raised ℕ
  check_next ts next = do
    checked ← ids (arr (cons next nil))
    guard (elim checked [ [] ↦ false | n ∷ ns ↦ is_last n ts ])
        (protocol_error "verification next token differs from the returned IDs")
    elim checked [
      | [] ↦ refused "verification next token differs from the returned IDs"
      | n ∷ ns ↦ ok n
    ]

  unfoldable pub check_verified : Fields Real → List ℕ → Result Raised (Option Verified)
  check_verified fs ts = do
    accepted ← check_accepted ts (← item "accepted" fs)
    next ← check_next ts (← item "next" fs)
    ok (some (record { accepted = accepted; next = next }))

  unfoldable pub check_reply : Json Real → Result Raised Reply
  check_reply j = do
    fs ← fields_of j "chain reply" ("ids" ∷ []) ("accepted" ∷ "next" ∷ [])
    ts ← ids (← item "ids" fs)
    guard (has "accepted" fs && has "next" fs || not (has "accepted" fs) && not (has "next" fs))
        (protocol_error "verification reply needs accepted and next together")
    verified ← (if has "accepted" fs then check_verified fs ts else ok none)
    ok (record { ids = ts; verified = verified })

  -- The replies of the last peer, without drafts and with them.
  unfoldable pub ids_reply : List ℕ → Fields Real
  ids_reply out = field "ids" (arr (int_items out)) end

  unfoldable pub answer_reply : Answer → Fields Real
  answer_reply a =
      field "ids" (arr (int_items a.ids))
        (field "accepted" (int a.accepted) (field "next" (int a.next) end))
