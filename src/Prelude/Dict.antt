-- ===== src/Prelude/Dict.antt =====
-- Python's `dict`: pairs in the order of insertion. Setting a key that is there keeps its place.
use Prim.Native.Nat.{◌+◌, ◌≤◌}
use mathlib.Core.Bool.{Bool}
use common_network.Prelude.Lists.{All, count_if, length}
use mathlib.Core.Logic.{inl, inr}
use mathlib.Core.Path.{◌≡◌, refl, sym, subst}
use mathlib.Core.List.{List, [], ◌∷◌}
use mathlib.Core.Option.{Option, none, some}
use native.Mathlib.Omega.{arith}
use common_network.Prelude.Tests.{Equality, if◌then◌else◌, Option-cases, Bool-cases}

abbrev pub Dict {ℓ κ} : Type ℓ → Type κ → Type (ℓ ⊔ κ)
Dict K V = List (K × V)

module _ {ℓ κ} {K : Type ℓ} {V : Type κ} ⦃e : Equality K⦄ where
  unfoldable pub lookup : K → Dict K V → Option V
  lookup k [] = none
  lookup k ((j, v) ∷ d) = if e.equal j k then some v else lookup k d

  -- `d[k] = v`
  unfoldable pub insert : K → V → Dict K V → Dict K V
  insert k v [] = (k, v) ∷ []
  insert k v ((j, w) ∷ d) = if e.equal j k then (j, v) ∷ d else (j, w) ∷ insert k v d

  -- `d.pop(k, None)`
  unfoldable pub erase : K → Dict K V → Dict K V
  erase k [] = []
  erase k ((j, w) ∷ d) = if e.equal j k then erase k d else (j, w) ∷ erase k d

  pub lookup-insert :
      (k j : K) (v : V) (d : Dict K V)
      → lookup j (insert k v d) ≡ (if e.equal k j then some v else lookup j d)
  unfolding lookup insert
  lookup-insert k j v [] = refl
  lookup-insert k j v ((i, w) ∷ d) =
      ground (arith, e.agrees k j, e.agrees i k, e.agrees i j, lookup-insert k j v d)

  pub lookup-erase :
      (k j : K) (d : Dict K V) → lookup j (erase k d) ≡ (if e.equal k j then none else lookup j d)
  unfolding lookup erase
  lookup-erase k j [] = ground arith
  lookup-erase k j ((i, w) ∷ d) =
      ground (arith, e.agrees k j, e.agrees i k, e.agrees i j, lookup-erase k j d)

  -- Setting a key that is there changes no count of keys; setting a new one adds that key.
  module _ (p : K → Bool) where
    pub count_if-insert-none :
        (k : K) (v : V) (d : Dict K V)
        → lookup k d ≡ none
        → count_if (λ kv. p kv.0) (insert k v d)
          ≡ count_if (λ kv. p kv.0) d + (if p k then 1 else 0)
    unfolding lookup insert
    count_if-insert-none k v [] h = ground arith
    count_if-insert-none k v ((j, w) ∷ d) h = ground (arith, count_if-insert-none k v d)

    pub count_if-insert-some :
        (k : K) (v w : V) (d : Dict K V)
        → lookup k d ≡ some w
        → count_if (λ kv. p kv.0) (insert k v d) ≡ count_if (λ kv. p kv.0) d
    unfolding lookup insert
    count_if-insert-some k v w [] h = cc
    count_if-insert-some k v w ((j, u) ∷ d) h = ground (arith, count_if-insert-some k v w d)

  pub length-insert-none :
      (k : K) (v : V) (d : Dict K V) → lookup k d ≡ none → length (insert k v d) ≡ length d + 1
  unfolding lookup insert
  length-insert-none k v [] h = refl
  length-insert-none k v ((j, w) ∷ d) h = ground (arith, length-insert-none k v d)

  pub length-insert-some :
      (k : K) (v w : V) (d : Dict K V) → lookup k d ≡ some w → length (insert k v d) ≡ length d
  unfolding lookup insert
  length-insert-some k v w [] h = cc
  length-insert-some k v w ((j, u) ∷ d) h = ground (arith, length-insert-some k v w d)

  -- No key stands twice.
  abbrev pub Once : Dict K V → Type ℓ
  Once d = (k : K) → count_if (λ kv. e.equal kv.0 k) d ≤ 1

  lookup-none-count :
      (k : K) (d : Dict K V) → lookup k d ≡ none → count_if (λ kv. e.equal kv.0 k) d ≡ 0
  unfolding lookup
  lookup-none-count k [] h = refl
  lookup-none-count k ((j, w) ∷ d) h = ground (arith, lookup-none-count k d)

  lookup-some-count :
      (k : K) (v : V) (d : Dict K V) → lookup k d ≡ some v → 1 ≤ count_if (λ kv. e.equal kv.0 k) d
  unfolding lookup
  lookup-some-count k v [] h = cc
  lookup-some-count k v ((j, w) ∷ d) h = ground (arith, lookup-some-count k v d)

  pub insert-Once : (k : K) (v : V) (d : Dict K V) → Once d → Once (insert k v d)
  insert-Once k v d h j = elim (Option-cases (lookup k d)) [
    | inl missing ↦ ground (
      arith,
      h j,
      count_if-insert-none (λ i. e.equal i j) k v d missing,
      lookup-none-count k d missing,
      e.agrees k j,
    )
    | inr (w, there) ↦ omega (arith, h j, count_if-insert-some (λ i. e.equal i j) k v w d there)
  ]

  module _ {μ} (P : K → V → Type μ) where
    pub All-insert :
        (k : K) (v : V) (d : Dict K V)
        → P k v
        → All (λ kv. P kv.0 kv.1) d
        → All (λ kv. P kv.0 kv.1) (insert k v d)
    unfolding insert
    All-insert k v [] p h = (p, tt)
    All-insert k v ((j, w) ∷ d) p h = elim (Bool-cases (e.equal j k)) [
      | inl same ↦ rw same ((subst (λ i. P i v) (sym ((e.agrees j k).0 same)) p, h.1))
      | inr other ↦ rw other ((h.0, All-insert k v d p h.1))
    ]

    -- What holds of every pair whose value its key finds holds of every pair.
    pub All-Once :
        (d : Dict K V)
        → Once d
        → ((k : K) (v : V) → lookup k d ≡ some v → P k v)
        → All (λ kv. P kv.0 kv.1) d
    unfolding lookup
    All-Once [] once h = tt
    All-Once ((j, w) ∷ d) once h = (
      h j w (ground (arith, e.agrees j j)),
      All-Once d (λ k. ground (arith, once k))
          (λ k v found. h k v (ground (arith, once k, found, lookup-some-count k v d))),
    )
