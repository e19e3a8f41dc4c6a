-- ===== src/Dht/Table/Nearest.antt =====
-- commonnet/dht/table.py: what `closest` returns.
use common_network.Prelude.{
  ℕ, zero, suc, ◌≤◌, ◌<◌, ◌≡◌, ◌⊎◌, inl, inr, true, List, [], ◌∷◌, number_eq, arith, Option, none,
  some, All, All-take, length, length-take, refl, ◌∙◌, lt-suc-cases,
}
use mathlib.Core.Path.{subst}
use common_network.Prelude.Sort.{sort_by, Sorted, IsOrder, All-sort_by, take-Sorted, sort_by-Sorted}
use common_network.Prelude.Top.{
  Among, All-of, Among-append, Among-append_left, Among-append_right, take-first_or_behind,
}
use common_network.Dht.Ids.{distance}
use common_network.Dht.Table
use common_network.Dht.Table.{Contact, RoutingTable}

nearer-IsOrder : (target : ℕ) → IsOrder (Table.nearer target)
unfolding distance
nearer-IsOrder target = record { total = λ a b h. ground arith; trans = λ a b c h g. ground arith }

-- The contact is in one of the 256 buckets.
abbrev pub IsListed : RoutingTable → Contact → Type 0
IsListed t c = (idx : ℕ) × ((idx < 256) × Among c (t.buckets idx))

-- No contact is followed by a nearer one.
abbrev pub Ascending : ℕ → List Contact → Type 0
Ascending target [] = Unit
Ascending target (c ∷ cs) =
    All (λ d. distance c.id target ≤ distance d.id target) cs × Ascending target cs

-- As many as were asked for, k where no number was given.
abbrev pub asked_for : RoutingTable → Option ℕ → ℕ
asked_for t none = t.k
asked_for t (some n) = n

pub record IsNearest (t : RoutingTable) (target : ℕ) (n : Option ℕ) (out : List Contact)
    : Type 0 where
  pub listed : All (IsListed t) out
  pub ascending : Ascending target out
  pub within : length out ≤ asked_for t n
  pub complete :
      (idx : ℕ) (c : Contact)
      → idx < 256
      → Among c (t.buckets idx)
      → Among c out
        ⊎ (All (λ d. distance d.id target ≤ distance c.id target) out
            × (length out ≡ asked_for t n))

module _ (t : RoutingTable) where
  contacts_below-listed :
      (n : ℕ) (c : Contact)
      → Among c (Table.contacts_below t n)
      → (idx : ℕ) × ((idx < n) × Among c (t.buckets idx))
  unfolding Table.contacts_below
  contacts_below-listed zero c m = absurd m
  contacts_below-listed (suc n) c m =
      elim (Among-append c (Table.contacts_below t n) (t.buckets n) m) [
        | inl k ↦ let (idx, (low, at)) = contacts_below-listed n c k in (idx, (omega arith, at))
        | inr k ↦ (n, (omega arith, k))
      ]

  listed-contacts_below :
      (n idx : ℕ) (c : Contact)
      → idx < n
      → Among c (t.buckets idx)
      → Among c (Table.contacts_below t n)
  unfolding Table.contacts_below
  listed-contacts_below zero idx c h m = absurd (omega arith)
  listed-contacts_below (suc n) idx c h m = elim (lt-suc-cases idx n h) [
    | inl low ↦
        Among-append_left c (Table.contacts_below t n) (t.buckets n)
          (listed-contacts_below n idx c low m)
    | inr at ↦
        Among-append_right c (Table.contacts_below t n) (t.buckets n)
          (subst (λ (i : ℕ). Among c (t.buckets i)) at m)
  ]

Sorted-Ascending :
    (target : ℕ) (cs : List Contact) → Sorted (Table.nearer target) cs → Ascending target cs
Sorted-Ascending target [] h = tt
Sorted-Ascending target (c ∷ cs) h = (later cs h.0, Sorted-Ascending target cs h.1)
  where
    later :
        (xs : List Contact)
        → All (λ d. Table.nearer target c d ≡ true) xs
        → All (λ d. distance c.id target ≤ distance d.id target) xs
    later [] k = tt
    later (x ∷ xs) k = (ground arith, later xs k.1)

not_farther :
    (target : ℕ) (c : Contact) (xs : List Contact)
    → All (λ d. Table.nearer target d c ≡ true) xs
    → All (λ d. distance d.id target ≤ distance c.id target) xs
not_farther target c [] k = tt
not_farther target c (x ∷ xs) k = (ground arith, not_farther target c xs k.1)

count_or_k-asked_for : (t : RoutingTable) (n : Option ℕ) → Table.count_or_k t n ≡ asked_for t n
count_or_k-asked_for t none = refl
count_or_k-asked_for t (some n) = refl

-- What `closest` gives are contacts of the 256 buckets, each at least as near to the target as those
-- after it, and at most as many as were asked for, or k where no number was given. Any contact of a
-- bucket is given too, or as many as that are given and none of them is farther from the target.
pub closest-IsNearest :
    (t : RoutingTable) (target : ℕ) (n : Option ℕ) → IsNearest t target n (Table.closest t target n)
unfolding Table.closest Table.contacts
closest-IsNearest t target n =
    let le = Table.nearer target in
    let o = nearer-IsOrder target in
    let count = Table.count_or_k t n in
    let all = Table.contacts_below t 256 in
    let asked = count_or_k-asked_for t n in
    record {
      listed =
          All-take _ count (sort_by le all)
            (All-sort_by le _ all (All-of _ all (contacts_below-listed t 256)));
      ascending =
          Sorted-Ascending target _
            (take-Sorted le count (sort_by le all) (sort_by-Sorted le o all));
      within = omega (arith, length-take count (sort_by le all), asked);
      complete = λ idx c h m.
          elim (take-first_or_behind le o count c all (listed-contacts_below t 256 idx c h m)) [
            | inl k ↦ inl k
            | inr (near, e) ↦ inr (not_farther target c _ near, e ∙ asked)
          ];
    }
