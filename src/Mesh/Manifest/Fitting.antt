-- ===== src/Mesh/Manifest/Fitting.antt =====
-- commonnet/mesh/manifest.py: `windows_fitting` lists every window that fits, once.
use common_network.Prelude.{
  ℕ, ◌<◌, ◌≡◌, refl, ap, ◌∙◌, String, List, [], ◌∷◌, Bool, true, false, ◌&&◌, ◌==◌, number_eq,
  pair_eq, ltb, if◌then◌else◌, any, keep_if, map, count_if, count_if-append, arith, All, Bool-cases,
  inl, inr,
}
use common_network.Prelude.Sort.{count_if-sort_by}
use common_network.Mesh.Manifest
use common_network.Mesh.Manifest.{Manifest, pairs_from, longer_first, is_window, one_if}
use common_network.Mesh.Manifest.Valid.{Rising}

-- How often a window is listed.
abbrev pub times : ℕ × ℕ → List (ℕ × ℕ) → ℕ
times w = count_if (λ v. v == w)

count_if-map_pair :
    (a c d : ℕ) (bs : List ℕ)
    → times (c, d) (map (λ b. (a, b)) bs) ≡ (if a == c then count_if (λ b. b == d) bs else 0)
count_if-map_pair a c d [] = ground arith
count_if-map_pair a c d (b ∷ bs) = ground (arith, count_if-map_pair a c d bs)

not_among : (a : ℕ) (bs : List ℕ) → All (λ b. a < b) bs → any (λ x. x == a) bs ≡ false
not_among a [] h = refl
not_among a (b ∷ bs) h = ground (arith, not_among a bs h.1)

below-All : (a d : ℕ) (bs : List ℕ) → All (λ b. a < b) bs → any (λ x. x == d) bs ≡ true → a < d
below-All a d [] h k = cc
below-All a d (b ∷ bs) h k = ground (arith, below-All a d bs h.1)

count_if-Rising :
    (d : ℕ) (bs : List ℕ) → Rising bs → count_if (λ b. b == d) bs ≡ one_if (any (λ x. x == d) bs)
count_if-Rising d [] h = refl
count_if-Rising d (b ∷ bs) h = ground (arith, count_if-Rising d bs h.1, not_among b bs h.0)

times-pairs_from :
    (c d : ℕ) (bs : List ℕ)
    → Rising bs
    → times (c, d) (pairs_from bs)
      ≡ one_if (any (λ x. x == c) bs && any (λ x. x == d) bs && ltb c d)
unfolding pairs_from
times-pairs_from c d [] h = refl
times-pairs_from c d (a ∷ bs) h = ground (
  arith,
  count_if-append (λ v. v == (c, d)) (map (λ b. (a, b)) bs) (pairs_from bs),
  count_if-map_pair a c d bs,
  times-pairs_from c d bs h.1,
  count_if-Rising d bs h.1,
  not_among a bs h.0,
  below-All a d bs h.0,
  below-All a c bs h.0,
)

pub times-keep_if :
    (q : ℕ × ℕ → Bool) (w : ℕ × ℕ) (xs : List (ℕ × ℕ))
    → times w (keep_if q xs) ≡ (if q w then times w xs else 0)
times-keep_if q w [] = ground arith
times-keep_if q w (x ∷ xs) = elim (Bool-cases (x == w)) [
  | inl same ↦
      let e : q x ≡ q w = ap q ((pair_eq.agrees x w).0 same) in ground (arith, times-keep_if q w xs)
  | inr other ↦ ground (arith, times-keep_if q w xs)
]

-- For boundaries that rise, `windows_fitting` lists a window exactly once where it is on the boundaries,
-- its weights fit in the memory and it has no more layers than the limit, and else not at all.
pub windows_fitting-times :
    (m : Manifest) (gib : ℕ) (backend : String) (a b : ℕ)
    → Rising m.boundaries
    → times (a, b) (Manifest.windows_fitting m gib backend)
      ≡ one_if (is_window m a b && Manifest.fits m gib backend (a, b))
unfolding Manifest.windows_fitting is_window
windows_fitting-times m gib backend a b h =
    let found = pairs_from m.boundaries in
    count_if-sort_by longer_first (λ v. v == (a, b)) (keep_if (Manifest.fits m gib backend) found)
    ∙ times-keep_if (Manifest.fits m gib backend) (a, b) found
    ∙ ground (arith, times-pairs_from a b m.boundaries h)
