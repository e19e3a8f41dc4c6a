-- ===== src/Net/Protocol/Checked.antt =====
-- What the checks of single values return or raise.
use common_network.Prelude.{
  ◌<◌, ℕ, suc, ◌≤◌, String, ◌≡◌, refl, sym, ap, ◌∙◌, inl, inr, true, some, List, [], ◌∷◌, arith,
  ◌==◌, text_eq, number_eq, length, All, Option-cases, by_test,
}
use mathlib.Core.Path.{subst}
use common_network.Prelude.Result.{Result, ◌>>=◌, Gives, Gives->>=, Gives-weaker}
use common_network.Net.Json.{
  Raised, protocol_error, key_error, overflow_error, record_error, Json, null, flag, int, negative,
  real, text, arr, obj, Items, nil, cons, Fields, items_length, item, has, missing, item-of_has,
}
use common_network.Net.Protocol.{
  shape_rank, dtype_width, check_dims, check_shape, check_dtype, fields_of, check_session_id,
  is_session_id, check_start_pos, check_layers,
}

-- The error is a `ProtocolError`, and no other.
abbrev pub IsProtocolError : Raised → Type 0
IsProtocolError (protocol_error m) = Unit
IsProtocolError (key_error k) = ⊥
IsProtocolError overflow_error = ⊥
IsProtocolError (record_error m) = ⊥

module _ {Real : Type 0} where
  pub missing-none :
      (keys : List String) (fs : Fields Real)
      → length (missing keys fs) ≡ 0
      → All (λ (k : String). has k fs ≡ true) keys
  missing-none [] fs h = tt
  missing-none (k ∷ keys) fs h = ground (arith, missing-none keys fs)

  pub fields_of-Gives :
      (j : Json Real) (what : String) (required optional : List String)
      → Gives IsProtocolError
          (λ (fs : Fields Real). All (λ (k : String). has k fs ≡ true) required)
          (fields_of j what required optional)
  unfolding fields_of
  fields_of-Gives (obj fs) what required optional = ground (arith, missing-none required fs)
  fields_of-Gives null what required optional = tt
  fields_of-Gives (flag b) what required optional = tt
  fields_of-Gives (int n) what required optional = tt
  fields_of-Gives (negative n) what required optional = tt
  fields_of-Gives (real x) what required optional = tt
  fields_of-Gives (text s) what required optional = tt
  fields_of-Gives (arr xs) what required optional = tt

  -- A required key is there.
  pub Gives-item {κ} :
      {B : Type κ} (R : B → Type 0) (key : String) (fs : Fields Real)
      (f : Json Real → Result Raised B)
      → has key fs ≡ true
      → ((v : Json Real) → Gives IsProtocolError R (f v))
      → Gives IsProtocolError R (item key fs >>= f)
  Gives-item R key fs f h k =
      let (v, e) = item-of_has key fs h in
      subst (λ m. Gives IsProtocolError R (m >>= f)) (sym e) (k v)

  pub check_dims-Gives :
      (xs : Items Real)
      → Gives IsProtocolError
          (λ (dims : List ℕ). (length dims ≡ items_length xs) × All (λ (n : ℕ). 1 ≤ n) dims)
          (check_dims xs)
  unfolding check_dims
  check_dims-Gives nil = (refl, tt)
  check_dims-Gives (cons (int (suc n)) xs) =
      Gives->>= IsProtocolError _ _ (check_dims xs) _ (check_dims-Gives xs)
        (λ (dims : List ℕ) (h : (length dims ≡ items_length xs) × All (λ (n : ℕ). 1 ≤ n) dims).
          (ap suc h.0, (omega arith, h.1)))
  check_dims-Gives (cons _ xs) = tt

  pub check_shape-Gives :
      (j : Json Real)
      → Gives IsProtocolError
          (λ (dims : List ℕ). (length dims ≡ shape_rank) × All (λ (n : ℕ). 1 ≤ n) dims)
          (check_shape j)
  unfolding check_shape
  check_shape-Gives (arr xs) =
      by_test
        (Gives IsProtocolError
          (λ (dims : List ℕ). (length dims ≡ shape_rank) × All (λ (n : ℕ). 1 ≤ n) dims))
        (items_length xs == shape_rank) _ _
        (λ h.
          Gives-weaker IsProtocolError _ _ (check_dims xs) (check_dims-Gives xs)
            (λ (dims : List ℕ) (k : (length dims ≡ items_length xs) × All (λ (n : ℕ). 1 ≤ n) dims).
              (k.0 ∙ (number_eq.agrees _ _).0 h, k.1)))
        (λ h. tt)
  check_shape-Gives null = tt
  check_shape-Gives (flag b) = tt
  check_shape-Gives (int n) = tt
  check_shape-Gives (negative n) = tt
  check_shape-Gives (real x) = tt
  check_shape-Gives (text s) = tt
  check_shape-Gives (obj fs) = tt

  pub check_dtype-Gives :
      (j : Json Real)
      → Gives IsProtocolError
          (λ (name : String). (w : ℕ) × (dtype_width name ≡ some w))
          (check_dtype j)
  unfolding check_dtype
  check_dtype-Gives (text s) = elim (Option-cases (dtype_width s)) [
    | inl e ↦ rw (Gives, check_dtype, e) tt
    | inr (w, e) ↦ rw (Gives, check_dtype, e) (w, e)
  ]
  check_dtype-Gives null = tt
  check_dtype-Gives (flag b) = tt
  check_dtype-Gives (int n) = tt
  check_dtype-Gives (negative n) = tt
  check_dtype-Gives (real x) = tt
  check_dtype-Gives (arr xs) = tt
  check_dtype-Gives (obj fs) = tt

  pub check_session_id-Gives :
      (j : Json Real)
      → Gives IsProtocolError (λ (s : String). is_session_id s ≡ true) (check_session_id j)
  unfolding check_session_id
  check_session_id-Gives (text s) = ground arith
  check_session_id-Gives null = tt
  check_session_id-Gives (flag b) = tt
  check_session_id-Gives (int n) = tt
  check_session_id-Gives (negative n) = tt
  check_session_id-Gives (real x) = tt
  check_session_id-Gives (arr xs) = tt
  check_session_id-Gives (obj fs) = tt

  pub check_start_pos-Gives :
      (j : Json Real) → Gives IsProtocolError (λ (n : ℕ). Unit) (check_start_pos j)
  unfolding check_start_pos
  check_start_pos-Gives j = ground arith

  pub check_layers-Gives :
      (j : Json Real)
      → Gives IsProtocolError (λ (layers : ℕ × ℕ). layers.0 < layers.1) (check_layers j)
  unfolding check_layers
  check_layers-Gives j = ground arith
