-- ===== src/Mesh/Manifest/Valid.antt =====
-- commonnet/mesh/manifest.py: what `validate` ensures of the boundaries.
use common_network.Prelude.{
  ℕ, ◌≤◌, ◌<◌, ◌≡◌, List, [], ◌∷◌, length, none, false, number_eq, text_eq, leb, any, arith, All,
}
use common_network.Mesh.Manifest
use common_network.Mesh.Manifest.{
  Manifest, ManifestError, stages_of, stages, first_of, last_of, largest,
}

-- Each number is below all that follow it.
abbrev pub Rising : List ℕ → Type 0
Rising [] = Unit
Rising (a ∷ bs) = All (λ b. a < b) bs × Rising bs

All-above : (a b : ℕ) (bs : List ℕ) → a < b → All (λ c. b < c) bs → All (λ c. a < c) bs
All-above a b [] h k = tt
All-above a b (c ∷ cs) h k = (omega arith, All-above a b cs h k.1)

stages-Rising : (bs : List ℕ) → any (λ s. leb s.1 s.0) (stages_of bs) ≡ false → Rising bs
unfolding stages_of
stages-Rising [] h = tt
stages-Rising (a ∷ []) h = (tt, tt)
stages-Rising (a ∷ b ∷ bs) h =
    let rest = stages-Rising (b ∷ bs) (ground arith) in
    let lt : a < b = ground arith in ((lt, All-above a b bs lt rest.0), rest)

-- What `validate` ensures of the layers.
pub record IsLaidOut (m : Manifest) : Type 0 where
  pub rising : Rising m.boundaries
  pub two : 2 ≤ length m.boundaries
  pub from_zero : first_of m.boundaries ≡ 0
  pub to_end : last_of m.boundaries ≡ m.num_layers

pub validate-IsLaidOut : (m : Manifest) → Manifest.validate m ≡ none → IsLaidOut m
unfolding Manifest.validate
validate-IsLaidOut m h = record {
  rising = stages-Rising m.boundaries (ground arith);
  two = ground arith;
  from_zero = ground arith;
  to_end = ground arith;
}
