-- ===== src/Plan/Search.antt =====
-- The loop `for a in range(lo, n)` of commonnet/plan.py that keeps the best feasible split point.
use common_network.Prelude.{
  ℕ, zero, suc, ◌+◌, ◌≤◌, ◌<◌, ◌≡◌, Bool, true, false, Option, none, some, arith, if◌then◌else◌,
  ltb, inl, inr, Option-cases, Bool-cases, lt-suc-cases, ap,
}
use Prim.Native.Nat.add
use native.Mathlib.Nat.{add-suc, suc-add}

-- What the loops rely on of the comparison `>` of two scores.
pub record IsGreater {ℓ} {S : Type ℓ} (gt : S → S → Bool) : Type ℓ where
  pub asym : (a b : S) → gt a b ≡ true → gt b a ≡ false
  pub neg_trans : (a b c : S) → gt a b ≡ false → gt b c ≡ false → gt a c ≡ false

abbrev pub nat_gt : ℕ → ℕ → Bool
nat_gt a b = ltb b a

pub nat_gt-IsGreater : IsGreater nat_gt
nat_gt-IsGreater = record { asym = λ a b h. ground arith; neg_trans = λ a b c h k. ground arith }

module _ {ℓ} {S : Type ℓ} (gt : S → S → Bool) (score : ℕ → Option S) where
  -- `if best is None or headroom > best[0]: best = (headroom, a, ...)`
  unfoldable pub better : Option (S × ℕ) → ℕ → S → Option (S × ℕ)
  better none a h = some (h, a)
  better (some (g, c)) a h = if gt h g then some (h, a) else some (g, c)

  -- One round: an infeasible split point is passed over.
  unfoldable pub consider : Option (S × ℕ) → ℕ → Option (S × ℕ)
  unfolding better
  consider best a = elim (score a) [ none ↦ best | some h ↦ better best a h ]

  -- `for a in range(lo, lo + rounds)`
  unfoldable pub search_from : ℕ → ℕ → Option (S × ℕ) → Option (S × ℕ)
  search_from zero a best = best
  search_from (suc rounds) a best = search_from rounds (suc a) (consider best a)

  -- `best` is a best feasible point of [lo, hi), or there is none.
  abbrev pub IsBest : ℕ → ℕ → Option (S × ℕ) → Type ℓ
  IsBest lo hi none = (b : ℕ) → lo ≤ b → b < hi → score b ≡ none
  IsBest lo hi (some (h, c)) =
      (score c ≡ some h)
      × (lo ≤ c)
      × (c < hi)
      × ((b : ℕ) (k : S) → lo ≤ b → b < hi → score b ≡ some k → gt k h ≡ false)

  module _ (g : IsGreater gt) where
    not_above_self : (h : S) → gt h h ≡ false
    not_above_self h = elim (Bool-cases (gt h h)) [ inl e ↦ g.asym h h e | inr e ↦ e ]

    better-IsBest :
        (lo a : ℕ) (best : Option (S × ℕ)) (h : S)
        → lo ≤ a
        → score a ≡ some h
        → IsBest lo a best
        → IsBest lo (suc a) (better best a h)
    unfolding better
    better-IsBest lo a none h le e i = (
      e,
      le,
      omega arith,
      λ b k p q f. elim (lt-suc-cases b a q) [
        | inl old ↦ cc (i b p old)
        | inr new ↦ ground (arith, not_above_self h, ap score new)
      ],
    )
    better-IsBest lo a (some (h0, c)) h le e i = elim (Bool-cases (gt h h0)) [
      | inl up ↦ rw up (
        e,
        le,
        omega arith,
        λ b k p q f. elim (lt-suc-cases b a q) [
          | inl old ↦ g.neg_trans k h0 h (i.3 b k p old f) (g.asym h h0 up)
          | inr new ↦ ground (arith, not_above_self h, ap score new)
        ],
      )
      | inr keep ↦ rw keep (
        i.0,
        i.1,
        omega arith,
        λ b k p q f. elim (lt-suc-cases b a q) [
          | inl old ↦ i.3 b k p old f
          | inr new ↦ ground (arith, ap score new)
        ],
      )
    ]

    consider-IsBest :
        (lo a : ℕ) (best : Option (S × ℕ))
        → lo ≤ a
        → IsBest lo a best
        → IsBest lo (suc a) (consider best a)
    unfolding consider
    consider-IsBest lo a best le i = elim (Option-cases (score a)) [
      | inl skip ↦ rw (skip, consider) (keep-IsBest best i skip)
      | inr (h, e) ↦ rw (e, consider) (better-IsBest lo a best h le e i)
    ]
      where
        keep-IsBest :
            (best : Option (S × ℕ)) → IsBest lo a best → score a ≡ none → IsBest lo (suc a) best
        keep-IsBest none i skip =
            λ b p q. elim (lt-suc-cases b a q) [ inl old ↦ i b p old | inr new ↦ cc (ap score new) ]
        keep-IsBest (some (h, c)) i skip = (
          i.0,
          i.1,
          omega arith,
          λ b k p q f. elim (lt-suc-cases b a q) [
            | inl old ↦ i.3 b k p old f
            | inr new ↦ cc (ap score new)
          ],
        )

    pub search_from-IsBest :
        (rounds lo a : ℕ) (best : Option (S × ℕ))
        → lo ≤ a
        → IsBest lo a best
        → IsBest lo (rounds + a) (search_from rounds a best)
    unfolding search_from
    search_from-IsBest zero lo a best le i = rw add.zero i
    search_from-IsBest (suc rounds) lo a best le i = rw suc-add (
        rw (← add-suc) (
          search_from-IsBest rounds lo (suc a) (consider best a) (omega arith)
            (consider-IsBest lo a best le i)))

    -- The whole loop from an empty start.
    pub search_from-IsBest_init :
        (rounds lo : ℕ) → IsBest lo (rounds + lo) (search_from rounds lo none)
    search_from-IsBest_init rounds lo =
        search_from-IsBest rounds lo lo none (omega arith) (λ b p q. absurd (omega arith))

  -- `best` is a feasible point of [lo, hi), or there is none.
  abbrev pub IsFound : ℕ → ℕ → Option (S × ℕ) → Type ℓ
  IsFound lo hi none = (b : ℕ) → lo ≤ b → b < hi → score b ≡ none
  IsFound lo hi (some (h, c)) = (score c ≡ some h) × (lo ≤ c) × (c < hi)

  better-IsFound :
      (lo a : ℕ) (best : Option (S × ℕ)) (h : S)
      → lo ≤ a
      → score a ≡ some h
      → IsFound lo a best
      → IsFound lo (suc a) (better best a h)
  unfolding better
  better-IsFound lo a none h le e i = (e, le, omega arith)
  better-IsFound lo a (some (h0, c)) h le e i = elim (Bool-cases (gt h h0)) [
    | inl up ↦ rw up (e, le, omega arith)
    | inr keep ↦ rw keep (i.0, i.1, omega arith)
  ]

  consider-IsFound :
      (lo a : ℕ) (best : Option (S × ℕ))
      → lo ≤ a
      → IsFound lo a best
      → IsFound lo (suc a) (consider best a)
  unfolding consider
  consider-IsFound lo a best le i = elim (Option-cases (score a)) [
    | inl skip ↦ rw (skip, consider) (keep-IsFound best i skip)
    | inr (h, e) ↦ rw (e, consider) (better-IsFound lo a best h le e i)
  ]
    where
      keep-IsFound :
          (best : Option (S × ℕ)) → IsFound lo a best → score a ≡ none → IsFound lo (suc a) best
      keep-IsFound none i skip =
          λ b p q. elim (lt-suc-cases b a q) [ inl old ↦ i b p old | inr new ↦ cc (ap score new) ]
      keep-IsFound (some (h, c)) i skip = (i.0, i.1, omega arith)

  search_from-IsFound :
      (rounds lo a : ℕ) (best : Option (S × ℕ))
      → lo ≤ a
      → IsFound lo a best
      → IsFound lo (rounds + a) (search_from rounds a best)
  unfolding search_from
  search_from-IsFound zero lo a best le i = rw add.zero i
  search_from-IsFound (suc rounds) lo a best le i = rw suc-add (
      rw (← add-suc) (
        search_from-IsFound rounds lo (suc a) (consider best a) (omega arith)
          (consider-IsFound lo a best le i)))

  -- The whole loop from an empty start, whatever the comparison does.
  pub search_from-IsFound_init :
      (rounds lo : ℕ) → IsFound lo (rounds + lo) (search_from rounds lo none)
  search_from-IsFound_init rounds lo =
      search_from-IsFound rounds lo lo none (omega arith) (λ b p q. absurd (omega arith))
