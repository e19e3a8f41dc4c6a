-- ===== src/Net/Chain/Linked.antt =====
-- Routes whose hops follow on each other and visit no peer twice.
use common_network.Prelude.{
  ℕ, String, ◌≡◌, sym, ◌≢◌, true, List, [], ◌∷◌, arith, ◌==◌, text_eq, number_eq, any, All,
}
use common_network.Prelude.Tests.{equal_refl}
use mathlib.Core.Path.{subst}
use common_network.Net.Chain.{Hop}
use common_network.Net.Chain.Request.{is_linked}

abbrev pub IsContiguous : ℕ → List Hop → Type 0
IsContiguous start [] = Unit
IsContiguous start (hop ∷ hops) = (hop.layers.0 ≡ start) × IsContiguous hop.layers.1 hops

abbrev pub IsDistinct : List Hop → Type 0
IsDistinct [] = Unit
IsDistinct (hop ∷ hops) = All (λ (other : Hop). other.url ≢ hop.url) hops × IsDistinct hops

pub is_linked-IsContiguous :
    (start : ℕ) (seen : List String) (hops : List Hop)
    → is_linked start seen hops ≡ true
    → IsContiguous start hops
unfolding is_linked
is_linked-IsContiguous start seen [] h = tt
is_linked-IsContiguous start seen (hop ∷ hops) h =
    (ground arith, is_linked-IsContiguous hop.layers.1 (hop.url ∷ seen) hops (ground arith))

is_linked-unseen :
    (start : ℕ) (seen : List String) (hops : List Hop) (url : String)
    → any (λ (u : String). u == url) seen ≡ true
    → is_linked start seen hops ≡ true
    → All (λ (other : Hop). other.url ≢ url) hops
unfolding is_linked
is_linked-unseen start seen [] url k h = tt
is_linked-unseen start seen (hop ∷ hops) url k h = (
  λ e.
      let again : any (λ (u : String). u == hop.url) seen ≡ true =
        subst (λ v. any (λ (u : String). u == v) seen ≡ true) (sym e) k in
      ground arith,
  is_linked-unseen hop.layers.1 (hop.url ∷ seen) hops url (ground arith) (ground arith),
)

pub is_linked-IsDistinct :
    (start : ℕ) (seen : List String) (hops : List Hop)
    → is_linked start seen hops ≡ true
    → IsDistinct hops
unfolding is_linked
is_linked-IsDistinct start seen [] h = tt
is_linked-IsDistinct start seen (hop ∷ hops) h = (
  is_linked-unseen hop.layers.1 (hop.url ∷ seen) hops hop.url (ground (arith, equal_refl hop.url))
      (ground arith),
  is_linked-IsDistinct hop.layers.1 (hop.url ∷ seen) hops (ground arith),
)
