-- ===== src/Mesh/Assign/Match/Fuel.antt =====
-- commonnet/mesh/assign.py: the fuel that `augment` needs is one more than the number of peers.
use common_network.Prelude.{
  ℕ, zero, suc, ◌+◌, ◌≤◌, ◌<◌, ◌≡◌, refl, sym, ap, ◌∙◌, List, [], ◌∷◌, Option, none, some, true,
  false, ◌==◌, number_eq, pair_eq, if◌then◌else◌, arith, Bool-cases, inl, inr,
}
use common_network.Prelude.Dict.{lookup}
use common_network.Mesh.Cover.{Window}
use common_network.Mesh.Assign.Match
use common_network.Mesh.Assign.Match.{Matching, Try, is_in, is_matched}
use common_network.Mesh.Assign.Match.Sound.{IsMatching, IsTried, freed-IsFreed, augment-IsTried}

-- How many of the first peers have not been seen.
abbrev unseen : ℕ → List ℕ → ℕ
unseen zero seen = 0
unseen (suc n) seen = (if is_in n seen then 0 else 1) + unseen n seen

unseen-grows :
    (n : ℕ) (seen seen' : List ℕ)
    → ((i : ℕ) → is_in i seen ≡ true → is_in i seen' ≡ true)
    → unseen n seen' ≤ unseen n seen
unseen-grows zero seen seen' h = omega arith
unseen-grows (suc n) seen seen' h = ground (arith, unseen-grows n seen seen' h, h n)

unseen-lt :
    (n i : ℕ) (seen : List ℕ) → i < n → is_in i seen ≡ false → unseen n (i ∷ seen) < unseen n seen
unseen-lt zero i seen lt new = absurd (omega arith)
unseen-lt (suc n) i seen lt new = elim (Bool-cases (i == n)) [
  | inl same ↦
      let at : i ≡ n = (number_eq.agrees i n).0 same in
      ground (arith, unseen-grows n seen (i ∷ seen) (λ j h. ground (arith, h)))
  | inr other ↦ ground (arith, unseen-lt n i seen)
]

unseen-none : (n : ℕ) → unseen n [] ≡ n
unseen-none zero = refl
unseen-none (suc n) = omega (arith, unseen-none n)

module _ (candidates : Window → List ℕ) (n : ℕ)
    (few : (w : Window) (i : ℕ) → is_in i (candidates w) ≡ true → i < n) where
  -- Two functions agree where fewer than so many peers are unseen.
  abbrev Agree : (again again' : Window → List ℕ → Matching → Try) → ℕ → Type 0
  Agree again again' b =
      (v : Window) (seen : List ℕ) (mt : Matching)
      → IsMatching candidates mt
      → unseen n seen < b
      → again v seen mt ≡ again' v seen mt

  freed-Agree :
      (again again' : Window → List ℕ → Matching → Try) (b : ℕ) (o : Option Window) (seen : List ℕ)
      (mt : Matching)
      → Agree again again' b
      → IsMatching candidates mt
      → unseen n seen < b
      → Match.freed again o seen mt ≡ Match.freed again' o seen mt
  freed-Agree again again' b none seen mt same ok lt = refl
  freed-Agree again again' b (some v) seen mt same ok lt = same v seen mt ok lt

  try_each-Agree :
      (again again' : Window → List ℕ → Matching → Try) (b : ℕ) (w : Window) (is seen : List ℕ)
      (mt : Matching)
      → ((w : Window) (seen : List ℕ) (mt : Matching)
          → IsMatching candidates mt
          → IsTried candidates w seen mt (again w seen mt))
      → Agree again again' b
      → ((j : ℕ) → is_in j is ≡ true → j < n)
      → IsMatching candidates mt
      → unseen n seen ≤ b
      → Match.try_each again w is seen mt ≡ Match.try_each again' w is seen mt
  unfolding Match.try_each
  try_each-Agree again again' b w [] seen mt ih same small ok le = refl
  try_each-Agree again again' b w (i ∷ is) seen mt ih same small ok le =
      let rest : ((j : ℕ) → is_in j is ≡ true → j < n) = λ j h. small j (ground (arith, h)) in
      let t = Match.freed again (lookup i mt.owner) (i ∷ seen) mt in
      let f = freed-IsFreed candidates again ih (lookup i mt.owner) i seen mt refl ok in
      elim (Bool-cases (is_in i seen)) [
        | inl old ↦ rw old (try_each-Agree again again' b w is seen mt ih same rest ok le)
        | inr new ↦
            let lt = unseen-lt n i seen (small i (ground arith)) new in
            rw
              (
                new,
                sym (
                    freed-Agree again again' b (lookup i mt.owner) (i ∷ seen) mt same ok
                      (omega arith)),
              )
              (elim (Bool-cases t.done) [
                | inl d ↦ rw d refl
                | inr d ↦ rw d (
                    try_each-Agree again again' b w is t.seen t.matching ih same rest f.matching (
                      omega
                        (arith, unseen-grows n seen t.seen (λ j h. f.grows j (ground (arith, h))))))
              ])
      ]

  augment-enough :
      (fuel : ℕ) (w : Window) (seen : List ℕ) (mt : Matching)
      → IsMatching candidates mt
      → unseen n seen < fuel
      → Match.augment candidates fuel w seen mt ≡ Match.augment candidates (suc fuel) w seen mt
  unfolding Match.augment
  augment-enough zero w seen mt ok lt = absurd (omega arith)
  augment-enough (suc fuel) w seen mt ok lt =
      try_each-Agree (Match.augment candidates fuel) (Match.augment candidates (suc fuel))
        (unseen n seen) w (candidates w) seen mt (augment-IsTried candidates fuel)
        (λ v seen' mt' ok' lt'. augment-enough fuel v seen' mt' ok' (omega arith)) (few w) ok
        (omega arith)

  match_all-enough :
      (fuel : ℕ) (ws : List Window) (mt : Matching)
      → IsMatching candidates mt
      → n < fuel
      → Match.match_all candidates fuel ws mt ≡ Match.match_all candidates (suc fuel) ws mt
  unfolding Match.match_all
  match_all-enough fuel [] mt ok lt = refl
  match_all-enough fuel (w ∷ ws) mt ok lt =
      let t = Match.augment candidates fuel w [] mt in
      let tried = augment-IsTried candidates fuel w [] mt ok in
      rw
        (
          sym (augment-enough fuel w [] mt ok (omega (arith, unseen-none n))),
          match_all-enough fuel ws mt ok lt,
          match_all-enough fuel ws t.matching tried.matching lt,
        )
        refl

  -- With one call more than there are peers the recursion of `augment` is never cut short: more fuel changes
  -- nothing, where every candidate is one of the peers and the seeded pairs are a matching.
  pub match_all-fuel :
      (k : ℕ) (ws : List Window) (mt : Matching)
      → IsMatching candidates mt
      → Match.match_all candidates (k + suc n) ws mt ≡ Match.match_all candidates (suc n) ws mt
  match_all-fuel zero ws mt ok = ap (λ f. Match.match_all candidates f ws mt) (omega arith)
  match_all-fuel (suc k) ws mt ok =
      ap (λ f. Match.match_all candidates f ws mt) (omega arith)
      ∙ sym (match_all-enough (k + suc n) ws mt ok (omega arith))
      ∙ match_all-fuel k ws mt ok
