-- ===== src/Prelude/Top.antt =====
-- The first `n` of a list in order, and what they leave out.
use Prim.Native.Nat.{ℕ, zero, suc}
use mathlib.Core.Path.{◌≡◌, refl, sym, ap, ◌∙◌, subst}
use mathlib.Core.Bool.{Bool, true}
use mathlib.Core.Logic.{inl, inr, ◌⊎◌}
use mathlib.Core.List.{List, [], ◌∷◌, ◌++◌}
use common_network.Prelude.Tests.{Bool-cases}
use common_network.Prelude.Lists.{All, length, take, keep_if}
use common_network.Prelude.Sort.{insert_by, sort_by, Sorted, IsOrder, sort_by-Sorted}

module _ {A : Type 0} where
  -- The element is in the list.
  abbrev pub Among : A → List A → Type 0
  Among x [] = ⊥
  Among x (y ∷ ys) = (x ≡ y) ⊎ Among x ys

  pub All-Among {κ} : (P : A → Type κ) (x : A) (xs : List A) → All P xs → Among x xs → P x
  All-Among P x [] h m = absurd m
  All-Among P x (y ∷ ys) h (inl e) = subst P (sym e) h.0
  All-Among P x (y ∷ ys) h (inr m) = All-Among P x ys h.1 m

  pub All-of {κ} : (P : A → Type κ) (xs : List A) → ((x : A) → Among x xs → P x) → All P xs
  All-of P [] h = tt
  All-of P (x ∷ xs) h = (h x (inl refl), All-of P xs (λ y m. h y (inr m)))

  pub Among-append_left : (x : A) (xs ys : List A) → Among x xs → Among x (xs ++ ys)
  Among-append_left x [] ys m = absurd m
  Among-append_left x (y ∷ xs) ys (inl e) = inl e
  Among-append_left x (y ∷ xs) ys (inr m) = inr (Among-append_left x xs ys m)

  pub Among-append_right : (x : A) (xs ys : List A) → Among x ys → Among x (xs ++ ys)
  Among-append_right x [] ys m = m
  Among-append_right x (y ∷ xs) ys m = inr (Among-append_right x xs ys m)

  pub Among-append : (x : A) (xs ys : List A) → Among x (xs ++ ys) → Among x xs ⊎ Among x ys
  Among-append x [] ys m = inr m
  Among-append x (y ∷ xs) ys (inl e) = inl (inl e)
  Among-append x (y ∷ xs) ys (inr m) = elim (Among-append x xs ys m) [
    | inl k ↦ inl (inr k)
    | inr k ↦ inr k
  ]

  pub Among-keep_if :
      (p : A → Bool) (x : A) (xs : List A) → p x ≡ true → Among x xs → Among x (keep_if p xs)
  Among-keep_if p x [] h m = absurd m
  Among-keep_if p x (y ∷ ys) h (inl e) =
      let k : p y ≡ true = ap p (sym e) ∙ h in rw (Among, keep_if, k) (inl e)
  Among-keep_if p x (y ∷ ys) h (inr m) = elim (Bool-cases (p y)) [
    | inl k ↦ rw (Among, keep_if, k) (inr (Among-keep_if p x ys h m))
    | inr k ↦ rw (Among, keep_if, k) (Among-keep_if p x ys h m)
  ]

  pub Among-of_keep_if :
      (p : A → Bool) (x : A) (xs : List A) → Among x (keep_if p xs) → (p x ≡ true) × Among x xs
  Among-of_keep_if p x [] m = absurd m
  Among-of_keep_if p x (y ∷ ys) m = elim (Bool-cases (p y)) [
    | inl k ↦ kept_one k (λ n. Among-of_keep_if p x ys n) (rw k at m)
    | inr k ↦ let (h, n) = Among-of_keep_if p x ys (rw k at m) in (h, inr n)
  ]
    where
      kept_one :
          p y ≡ true
          → (Among x (keep_if p ys) → (p x ≡ true) × Among x ys)
          → (x ≡ y) ⊎ Among x (keep_if p ys)
          → (p x ≡ true) × Among x (y ∷ ys)
      kept_one k ih (inl e) = (ap p e ∙ k, inl e)
      kept_one k ih (inr n) = let (h, n') = ih n in (h, inr n')

  pub Among-of_take : (n : ℕ) (x : A) (xs : List A) → Among x (take n xs) → Among x xs
  Among-of_take zero x xs m = absurd m
  Among-of_take (suc n) x [] m = absurd m
  Among-of_take (suc n) x (y ∷ ys) (inl e) = inl e
  Among-of_take (suc n) x (y ∷ ys) (inr m) = inr (Among-of_take n x ys m)

module _ {A : Type 0} (le : A → A → Bool) where
  Among-insert_by : (x y : A) (ys : List A) → Among x (y ∷ ys) → Among x (insert_by le y ys)
  unfolding insert_by
  Among-insert_by x y [] m = m
  Among-insert_by x y (z ∷ zs) m = elim (Bool-cases (le y z)) [
    | inl k ↦ rw (k, Among) m
    | inr k ↦ rw (k, Among) (later (λ n. Among-insert_by x y zs n) m)
  ]
    where
      later :
          (Among x (y ∷ zs) → Among x (insert_by le y zs))
          → Among x (y ∷ z ∷ zs)
          → (x ≡ z) ⊎ Among x (insert_by le y zs)
      later ih (inl e) = inr (ih (inl e))
      later ih (inr (inl e)) = inl e
      later ih (inr (inr k)) = inr (ih (inr k))

  pub Among-sort_by : (x : A) (xs : List A) → Among x xs → Among x (sort_by le xs)
  unfolding sort_by
  Among-sort_by x [] m = absurd m
  Among-sort_by x (y ∷ ys) (inl e) = Among-insert_by x y (sort_by le ys) (inl e)
  Among-sort_by x (y ∷ ys) (inr m) =
      Among-insert_by x y (sort_by le ys) (inr (Among-sort_by x ys m))

  -- An element is among the first `n`, or they are `n` and none of them comes behind it.
  first_or_behind :
      (n : ℕ) (x : A) (xs : List A)
      → Sorted le xs
      → Among x xs
      → Among x (take n xs) ⊎ (All (λ y. le y x ≡ true) (take n xs) × (length (take n xs) ≡ n))
  first_or_behind zero x xs s m = inr (tt, refl)
  first_or_behind (suc n) x [] s m = absurd m
  first_or_behind (suc n) x (y ∷ ys) s (inl e) = inl (inl e)
  first_or_behind (suc n) x (y ∷ ys) s (inr m) = elim (first_or_behind n x ys s.1 m) [
    | inl k ↦ inl (inr k)
    | inr (h, e) ↦ inr ((All-Among (λ z. le y z ≡ true) x ys s.0 m, h), ap suc e)
  ]

  pub take-first_or_behind :
      IsOrder le
      → (n : ℕ) (x : A) (xs : List A) → Among x xs
      → Among x (take n (sort_by le xs))
        ⊎ (All (λ y. le y x ≡ true) (take n (sort_by le xs))
            × (length (take n (sort_by le xs)) ≡ n))
  take-first_or_behind o n x xs m =
      first_or_behind n x (sort_by le xs) (sort_by-Sorted le o xs) (Among-sort_by x xs m)
