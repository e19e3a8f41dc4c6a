-- ===== src/Dht/Table/Contacts.antt =====
-- Lists of contacts: which ids they hold, and what the list operations of the table keep.
use common_network.Prelude.{
  ℕ, zero, suc, ◌+◌, ◌-◌, ◌≤◌, ◌<◌, ◌≡◌, refl, ap, List, [], ◌∷◌, ◌++◌, length, length-drop, drop,
  Bool, true, false, ◌||◌, ◌==◌, number_eq, arith, none, some, any, All, Bool-cases, ◌⊎◌, inl, inr,
}
use mathlib.Core.Path.{subst}
use common_network.Dht.Table.{Contact, find_id, drop_id, others, keep_last, pop_last, note_failure}

unfoldable pub has_id : ℕ → List Contact → Bool
has_id i cs = any (λ c. c.id == i) cs

-- No two contacts of the list have one id.
abbrev pub Distinct : List Contact → Type 0
Distinct [] = Unit
Distinct (c ∷ cs) = (has_id c.id cs ≡ false) × Distinct cs

-- The first list is the second with some contacts left out.
pub data Within : List Contact → List Contact → Type 0 where
  done : Within [] []
  skip : {c : Contact} {xs ys : List Contact} → Within xs ys → Within xs (c ∷ ys)
  keep : {c : Contact} {xs ys : List Contact} → Within xs ys → Within (c ∷ xs) (c ∷ ys)

pub Within-refl : (xs : List Contact) → Within xs xs
Within-refl [] = done
Within-refl (x ∷ xs) = keep (Within-refl xs)

pub Within-drop_id : (i : ℕ) (xs : List Contact) → Within (drop_id i xs) xs
unfolding drop_id
Within-drop_id i [] = done
Within-drop_id i (c ∷ cs) = elim (Bool-cases (c.id == i)) [
  | inl e ↦ rw e (skip (Within-refl cs))
  | inr e ↦ rw e (keep (Within-drop_id i cs))
]

pub Within-others : (i : ℕ) (xs : List Contact) → Within (others i xs) xs
unfolding others
Within-others i [] = done
Within-others i (c ∷ cs) = elim (Bool-cases (c.id == i)) [
  | inl e ↦ rw e (skip (Within-others i cs))
  | inr e ↦ rw e (keep (Within-others i cs))
]

Within-drop : (n : ℕ) (xs : List Contact) → Within (drop n xs) xs
Within-drop zero xs = Within-refl xs
Within-drop (suc n) [] = done
Within-drop (suc n) (c ∷ cs) = skip (Within-drop n cs)

pub Within-keep_last : (k : ℕ) (xs : List Contact) → Within (keep_last k xs) xs
unfolding keep_last
Within-keep_last k xs = elim (Bool-cases (k == 0)) [
  | inl e ↦ rw e (Within-refl xs)
  | inr e ↦ rw e (Within-drop (length xs - k) xs)
]

pub has_id-Within :
    {xs ys : List Contact} (i : ℕ) → Within xs ys → has_id i ys ≡ false → has_id i xs ≡ false
unfolding has_id
has_id-Within i done h = refl
has_id-Within i (skip w) h = has_id-Within i w (ground arith)
has_id-Within i (keep w) h = ground (arith, has_id-Within i w)

pub Distinct-Within : {xs ys : List Contact} → Within xs ys → Distinct ys → Distinct xs
Distinct-Within done d = tt
Distinct-Within (skip w) d = Distinct-Within w d.1
Distinct-Within (keep {c} w) d = (has_id-Within c.id w d.0, Distinct-Within w d.1)

pub length-Within : {xs ys : List Contact} → Within xs ys → length xs ≤ length ys
length-Within done = omega arith
length-Within (skip w) = omega (arith, length-Within w)
length-Within (keep w) = omega (arith, length-Within w)

module _ {ℓ} (P : Contact → Type ℓ) where
  pub All-Within : {xs ys : List Contact} → Within xs ys → All P ys → All P xs
  All-Within done h = tt
  All-Within (skip w) h = All-Within w h.1
  All-Within (keep w) h = (h.0, All-Within w h.1)

  -- What holds of a list holds of the contact that is found there.
  pub All-find_id :
      (i : ℕ) (xs : List Contact) (c : Contact) → find_id i xs ≡ some c → All P xs → P c
  unfolding find_id
  All-find_id i [] c e h = cc
  All-find_id i (x ∷ xs) c e h = elim (Bool-cases (x.id == i)) [
    | inl same ↦ subst P (ground arith) h.0
    | inr other ↦ All-find_id i xs c (ground arith) h.1
  ]

pub has_id-append :
    (i : ℕ) (xs : List Contact) (c : Contact) → has_id i (xs ++ c ∷ []) ≡ (has_id i xs || c.id == i)
unfolding has_id
has_id-append i [] c = ground arith
has_id-append i (x ∷ xs) c = ground (arith, has_id-append i xs c)

pub Distinct-append :
    (xs : List Contact) (c : Contact)
    → Distinct xs
    → has_id c.id xs ≡ false
    → Distinct (xs ++ c ∷ [])
unfolding has_id
Distinct-append [] c d h = (refl, tt)
Distinct-append (x ∷ xs) c d h =
    (ground (arith, has_id-append x.id xs c), Distinct-append xs c d.1 (ground arith))

pub has_id-drop_id_self :
    (i : ℕ) (xs : List Contact) → Distinct xs → has_id i (drop_id i xs) ≡ false
unfolding has_id drop_id
has_id-drop_id_self i [] d = refl
has_id-drop_id_self i (x ∷ xs) d = ground (arith, has_id-drop_id_self i xs d.1)

pub has_id-others_self : (i : ℕ) (xs : List Contact) → has_id i (others i xs) ≡ false
unfolding has_id others
has_id-others_self i [] = refl
has_id-others_self i (x ∷ xs) = ground (arith, has_id-others_self i xs)

pub find_id-some :
    (i : ℕ) (xs : List Contact) (c : Contact)
    → find_id i xs ≡ some c
    → (c.id ≡ i) × (has_id i xs ≡ true) × (length (drop_id i xs) + 1 ≡ length xs)
unfolding has_id find_id drop_id
find_id-some i [] c e = cc
find_id-some i (x ∷ xs) c e = ground (arith, find_id-some i xs c)

pub find_id-none : (i : ℕ) (xs : List Contact) → find_id i xs ≡ none → has_id i xs ≡ false
unfolding has_id find_id
find_id-none i [] e = refl
find_id-none i (x ∷ xs) e = ground (arith, find_id-none i xs)

pub length-keep_last : (k : ℕ) (xs : List Contact) → 0 < k → length (keep_last k xs) ≤ k
unfolding keep_last
length-keep_last k xs h = ground (arith, length-drop (length xs - k) xs)

-- An empty cache gives nothing, and any other its last contact.
pub pop_last-cases :
    (xs : List Contact)
    → ((xs ≡ []) × (pop_last xs ≡ none))
      ⊎ ((front : List Contact) × (last : Contact) × (xs ≡ front ++ last ∷ [])
          × (pop_last xs ≡ some (front, last)))
unfolding pop_last
pop_last-cases [] = inl (refl, refl)
pop_last-cases (x ∷ xs) = elim (pop_last-cases xs) [
  | inl (e, n) ↦ inr ([], x, ap (◌∷◌ x) e, rw (n, pop_last) refl)
  | inr (front, last, e, p) ↦ inr (x ∷ front, last, ap (◌∷◌ x) e, rw (p, pop_last) refl)
]

-- Two lists of contacts with the same ids in the same order.
pub note_failure-ids :
    (i j : ℕ) (xs : List Contact)
    → (has_id j (note_failure i xs) ≡ has_id j xs) × (length (note_failure i xs) ≡ length xs)
unfolding has_id note_failure
note_failure-ids i j [] = (refl, refl)
note_failure-ids i j (x ∷ xs) = ground (arith, note_failure-ids i j xs)

pub Distinct-note_failure : (i : ℕ) (xs : List Contact) → Distinct xs → Distinct (note_failure i xs)
unfolding note_failure
Distinct-note_failure i [] d = tt
Distinct-note_failure i (x ∷ xs) d =
    ground (arith, note_failure-ids i x.id xs, Distinct-note_failure i xs d.1)
