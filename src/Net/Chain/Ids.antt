-- ===== src/Net/Chain/Ids.antt =====
-- commonnet/net/chain.py: token ids within the limits of a chain.
use common_network.Prelude.{
  ℕ, ◌≤◌, ◌≡◌, refl, true, false, ◌||◌, not, List, [], ◌∷◌, arith, ltb, text_eq, number_eq, length,
  any, All, ltb→ge,
}
use common_network.Prelude.Result.{
  Result, ok, ◌>>=◌, ◌>>◌, guard, Gives, Gives->>=, Gives-guard, Gives-weaker,
}
use common_network.Net.Json.{
  Raised, protocol_error, Json, null, flag, int, negative, real, text, arr, obj, nil, cons,
  int_items,
}
use common_network.Net.Protocol.Checked.{IsProtocolError}
use common_network.Net.Protocol.Forward.Ids.{check_ids, HasLength, check_ids-Gives, check_ids-ok}

abbrev pub max_chain_tokens : ℕ
max_chain_tokens = 4096

abbrev pub max_token_id : ℕ
max_token_id = 4294967295

-- Some ids, no more than a chain takes, each of 32 bits.
abbrev pub HasIds : List ℕ → Type 0
HasIds ids =
    (1 ≤ length ids) × (length ids ≤ max_chain_tokens) × All (λ (t : ℕ). t ≤ max_token_id) ids

abbrev pub HasDrafts : List ℕ → Type 0
HasDrafts ids = (length ids ≤ max_chain_tokens) × All (λ (t : ℕ). t ≤ max_token_id) ids

none_over :
    (xs : List ℕ)
    → not (ltb max_chain_tokens (length xs) || any (λ (t : ℕ). ltb max_token_id t) xs) ≡ true
    → (ltb max_chain_tokens (length xs) ≡ false) × (any (λ (t : ℕ). ltb max_token_id t) xs ≡ false)
none_over xs e = ground arith

any-none :
    (xs : List ℕ)
    → any (λ (t : ℕ). ltb max_token_id t) xs ≡ false
    → All (λ (t : ℕ). t ≤ max_token_id) xs
any-none [] e = tt
any-none (x ∷ xs) e = (ground arith, any-none xs (ground arith))

any-All :
    (xs : List ℕ)
    → All (λ (t : ℕ). t ≤ max_token_id) xs
    → any (λ (t : ℕ). ltb max_token_id t) xs ≡ false
any-All [] h = refl
any-All (x ∷ xs) h = ground (arith, any-All xs h.1, h.0)

module _ {Real : Type 0} where
  unfoldable pub ids : Json Real → Result Raised (List ℕ)
  ids value = do
    result ← check_ids value
    guard (not (ltb max_chain_tokens (length result) || any (λ (t : ℕ). ltb max_token_id t) result))
        (protocol_error "chain token IDs exceed the uint32 or sequence limit")
    ok result

  -- `ids(value, empty=True)`
  unfoldable pub ids_or_none : Json Real → Result Raised (List ℕ)
  ids_or_none (arr nil) = ok []
  ids_or_none value = ids value

  pub ids-Gives : (j : Json Real) → Gives IsProtocolError HasIds (ids j)
  unfolding ids
  ids-Gives j =
      Gives->>= IsProtocolError HasLength HasIds (check_ids j) _ (check_ids-Gives j)
        (λ (xs : List ℕ) (h : HasLength xs).
          Gives-guard IsProtocolError HasIds
            (not (ltb max_chain_tokens (length xs) || any (λ (t : ℕ). ltb max_token_id t) xs)) _ _
            tt (λ e. (h.0, ltb→ge _ _ (none_over xs e).0, any-none xs (none_over xs e).1)))

  some_ids : (j : Json Real) → Gives IsProtocolError HasDrafts (ids j)
  some_ids j =
      Gives-weaker IsProtocolError HasIds HasDrafts (ids j) (ids-Gives j)
        (λ (xs : List ℕ) (h : HasIds xs). (h.1, h.2))

  pub ids_or_none-Gives : (j : Json Real) → Gives IsProtocolError HasDrafts (ids_or_none j)
  unfolding ids_or_none
  ids_or_none-Gives (arr nil) = (omega arith, tt)
  ids_or_none-Gives (arr (cons x xs)) = some_ids (arr (cons x xs))
  ids_or_none-Gives null = some_ids null
  ids_or_none-Gives (flag b) = some_ids (flag b)
  ids_or_none-Gives (int n) = some_ids (int n)
  ids_or_none-Gives (negative n) = some_ids (negative n)
  ids_or_none-Gives (real x) = some_ids (real x)
  ids_or_none-Gives (text s) = some_ids (text s)
  ids_or_none-Gives (obj fs) = some_ids (obj fs)

module _ (Real : Type 0) where
  pub ids-ok : (xs : List ℕ) → HasIds xs → ids {Real = Real} (arr (int_items xs)) ≡ ok xs
  unfolding ids
  ids-ok xs h = rw (check_ids-ok Real xs (h.0, ground arith)) (ground (arith, any-All xs h.2))
