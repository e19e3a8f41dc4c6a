-- ===== src/Net/Protocol/Forward/Ids.antt =====
-- commonnet/net/protocol.py: token ids on the wire.
use common_network.Prelude.{
  ℕ, suc, ◌≤◌, ◌≡◌, refl, ap, List, [], ◌∷◌, arith, if◌then◌else◌, text_eq, number_eq, length,
  by_test,
}
use common_network.Prelude.Result.{Result, ok, ◌>>=◌, Gives, Gives->>=, Gives-weaker}
use common_network.Net.Json.{
  Raised, Json, null, flag, int, negative, real, text, arr, obj, Items, nil, cons, Fields, end,
  field, items_length, int_items, item,
}
use common_network.Net.Protocol.{refused, fields_of, is_between}
use common_network.Net.Protocol.Tensors.Round.{items_length-int_items}
use common_network.Net.Protocol.Checked.{IsProtocolError}

-- `1 << 20`
abbrev pub max_ids : ℕ
max_ids = 1048576

abbrev pub HasLength : List ℕ → Type 0
HasLength ids = (1 ≤ length ids) × (length ids ≤ max_ids)

module _ {Real : Type 0} where
  -- The ids one by one.
  unfoldable pub token_ids : Items Real → Result Raised (List ℕ)
  token_ids nil = ok []
  token_ids (cons (int t) xs) = do rest ← token_ids xs; ok (t ∷ rest)
  token_ids (cons _ xs) = refused "every token id must be a non-negative int"

  unfoldable pub check_ids : Json Real → Result Raised (List ℕ)
  check_ids (arr xs) =
      if is_between 1 max_ids (items_length xs)
      then token_ids xs
      else refused "ids must be a non-empty JSON array of token ids"
  check_ids _ = refused "ids must be a non-empty JSON array of token ids"

  unfoldable pub encode_ids_reply : List ℕ → Result Raised (Fields Real)
  encode_ids_reply ids = do
    checked ← check_ids (arr (int_items ids))
    ok (field "ids" (arr (int_items checked)) end)

  unfoldable pub decode_ids_reply : Json Real → Result Raised (List ℕ)
  decode_ids_reply j = do
    fs ← fields_of j "forward reply" ("ids" ∷ []) []
    check_ids (← item "ids" fs)

  token_ids-Gives :
      (xs : Items Real)
      → Gives IsProtocolError (λ (ids : List ℕ). length ids ≡ items_length xs) (token_ids xs)
  unfolding token_ids
  token_ids-Gives nil = refl
  token_ids-Gives (cons (int t) xs) =
      Gives->>= IsProtocolError _ _ (token_ids xs) _ (token_ids-Gives xs)
        (λ (ids : List ℕ) (h : length ids ≡ items_length xs). ap suc h)
  token_ids-Gives (cons _ xs) = tt

  pub check_ids-Gives : (j : Json Real) → Gives IsProtocolError HasLength (check_ids j)
  unfolding check_ids
  check_ids-Gives (arr xs) =
      by_test (Gives IsProtocolError HasLength) (is_between 1 max_ids (items_length xs)) _ _
        (λ h.
          Gives-weaker IsProtocolError _ HasLength (token_ids xs) (token_ids-Gives xs)
            (λ (ids : List ℕ) (e : length ids ≡ items_length xs). (ground arith, ground arith)))
        (λ h. tt)
  check_ids-Gives null = tt
  check_ids-Gives (flag b) = tt
  check_ids-Gives (int n) = tt
  check_ids-Gives (negative n) = tt
  check_ids-Gives (real x) = tt
  check_ids-Gives (text s) = tt
  check_ids-Gives (obj fs) = tt

module _ (Real : Type 0) where
  token_ids-int_items : (ids : List ℕ) → token_ids {Real = Real} (int_items ids) ≡ ok ids
  unfolding token_ids
  token_ids-int_items [] = refl
  token_ids-int_items (t ∷ ids) = rw (token_ids-int_items ids) refl

  pub check_ids-ok :
      (ids : List ℕ) → HasLength ids → check_ids {Real = Real} (arr (int_items ids)) ≡ ok ids
  unfolding check_ids
  check_ids-ok ids h = ground (arith, token_ids-int_items ids, items_length-int_items Real ids)
