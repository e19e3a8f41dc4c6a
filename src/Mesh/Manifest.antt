-- ===== src/Mesh/Manifest.antt =====
-- commonnet/mesh/manifest.py: the model of a network, its stage boundaries and the windows on them.
-- Memory is counted in natural numbers of one small unit, without rounding; the fields are typed, and
-- `max_window_layers` is there or not. The seeds, repositories and the JSON form are left out.
pub mod Valid
pub mod Fitting
pub mod Tests
use common_network.Prelude.{
  ℕ, zero, suc, ◌+◌, ◌-◌, ◌*◌, max, String, List, [], ◌∷◌, ◌++◌, length, Option, none, some, Bool,
  true, false, ◌&&◌, ◌||◌, not, ◌==◌, number_eq, text_eq, ltb, leb, if◌then◌else◌, any, keep_if,
  map,
}
use common_network.Prelude.Dict.{Dict, lookup}
use common_network.Prelude.Sort.{sort_by}
use common_network.Prelude.Text.{text_length}

pub record Manifest : Type 0 where
  pub id : String
  pub num_layers : ℕ
  pub max_window_layers : Option ℕ
  pub boundaries : List ℕ
  pub gib_per_layer : Dict String ℕ
  pub fixed_gib : ℕ
  pub min_replicas : ℕ
  pub io_gib : Dict String ℕ

pub data ManifestError : Type 0 where
  bad_id : ManifestError
  bad_layers : ManifestError
  few_boundaries : ManifestError
  not_rising : ManifestError
  bad_replicas : ManifestError
  bad_limit : ManifestError
  bad_io : ManifestError

-- `zip(boundaries, boundaries[1:])`
unfoldable pub stages_of : List ℕ → List (ℕ × ℕ)
stages_of [] = []
stages_of (a ∷ []) = []
stages_of (a ∷ b ∷ bs) = (a, b) ∷ stages_of (b ∷ bs)

abbrev pub stages : Manifest → List (ℕ × ℕ)
stages m = stages_of m.boundaries

-- `xs[0]` and `xs[-1]`, read of lists of two numbers at least
abbrev pub first_of : List ℕ → ℕ
first_of [] = 0
first_of (x ∷ xs) = x

abbrev pub last_of : List ℕ → ℕ
last_of [] = 0
last_of (x ∷ []) = x
last_of (x ∷ y ∷ ys) = last_of (y ∷ ys)

-- `max(xs, default=0)`
abbrev pub largest : List ℕ → ℕ
largest [] = 0
largest (x ∷ xs) = max x (largest xs)

abbrev pub values : Dict String ℕ → List ℕ
values = map (λ kv. kv.1)

abbrev pub within_limit : Option ℕ → ℕ → Bool
within_limit none n = true
within_limit (some limit) n = leb n limit

unfoldable pub validate : Manifest → Option ManifestError
validate m =
    if m.id == "" || ltb 64 (text_length m.id)
    then some bad_id
    else if ltb m.num_layers 1
    then some bad_layers
    else if ltb (length m.boundaries) 2
    then some few_boundaries
    else if not (first_of m.boundaries == 0)
        || not (last_of m.boundaries == m.num_layers)
        || any (λ s. leb s.1 s.0) (stages m)
    then some not_rising
    else if ltb m.min_replicas 1
    then some bad_replicas
    else if not (within_limit m.max_window_layers (largest (map (λ s. s.1 - s.0) (stages m))))
    then some bad_limit
    else if any (λ kv. kv.0 == "") m.io_gib
    then some bad_io
    else none

abbrev pub or_largest : Dict String ℕ → Option ℕ → ℕ
or_largest costs none = largest (values costs)
or_largest costs (some cost) = cost

-- A backend that is not listed is costed at the largest listed.
unfoldable pub per_layer : Manifest → String → ℕ
per_layer m backend = or_largest m.gib_per_layer (lookup backend m.gib_per_layer)

abbrev pub one_if : Bool → ℕ
one_if b = if b then 1 else 0

unfoldable pub window_gib : Manifest → ℕ → ℕ → String → ℕ
window_gib m a b backend =
    let io = or_largest m.io_gib (lookup backend m.io_gib) in
    let ends = one_if (a == 0) + one_if (b == last_of m.boundaries) in
    m.fixed_gib + (b - a) * per_layer m backend + io * ends

unfoldable pub is_window : Manifest → ℕ → ℕ → Bool
is_window m a b = any (λ x. x == a) m.boundaries && any (λ x. x == b) m.boundaries && ltb a b

-- `(a, b) for i, a in enumerate(boundaries) for b in boundaries[i + 1:]`
unfoldable pub pairs_from : List ℕ → List (ℕ × ℕ)
pairs_from [] = []
pairs_from (a ∷ bs) = map (λ b. (a, b)) bs ++ pairs_from bs

-- By the key `(-(b - a), a)`
abbrev pub longer_first : ℕ × ℕ → ℕ × ℕ → Bool
longer_first v w = ltb (w.1 - w.0) (v.1 - v.0) || ((v.1 - v.0) == (w.1 - w.0) && leb v.0 w.0)

abbrev pub or_all : Manifest → Option ℕ → ℕ
or_all m none = m.num_layers
or_all m (some limit) = limit

abbrev pub fits : Manifest → ℕ → String → ℕ × ℕ → Bool
fits m gib backend w =
    leb (window_gib m w.0 w.1 backend) gib && leb (w.1 - w.0) (or_all m m.max_window_layers)

unfoldable pub windows_fitting : Manifest → ℕ → String → List (ℕ × ℕ)
windows_fitting m gib backend =
    sort_by longer_first (keep_if (fits m gib backend) (pairs_from m.boundaries))
