-- ===== src/Mesh/Assign/Match/Sound.antt =====
-- commonnet/mesh/assign.py: the peers that `_match` gives are candidates, each of one window only.
use common_network.Prelude.{
  ℕ, zero, suc, ◌≡◌, refl, sym, ◌∙◌, All, List, [], ◌∷◌, Option, none, some, true, false, number_eq,
  pair_eq, arith, Bool-cases, inl, inr,
}
use mathlib.Core.Path.{subst}
use mathlib.Core.Bool.{false≢true}
use mathlib.Core.Option.{none-ne-some, some-injective}
use common_network.Prelude.Dict.{lookup, lookup-insert, Once, insert-Once}
use common_network.Mesh.Cover.{Window}
use common_network.Mesh.Assign.Match
use common_network.Mesh.Assign.Match.{Matching, Try, is_in, take_over, is_matched}

module _ (candidates : Window → List ℕ) where
  -- The peer of a window is one of its candidates and is owned by that window, which is noted once.
  pub record IsMatching (mt : Matching) : Type 0 where
    pub owned : (w : Window) (i : ℕ) → lookup w mt.match ≡ some i → lookup i mt.owner ≡ some w
    pub drawn : (w : Window) (i : ℕ) → lookup w mt.match ≡ some i → is_in i (candidates w) ≡ true
    pub once : Once mt.match

  -- What a try leaves: the peers that were seen before it are given to no other window, no window loses its
  -- peer, and where the try is done its window has a peer that was not seen.
  pub record IsTried (w : Window) (seen : List ℕ) (mt : Matching) (t : Try) : Type 0 where
    pub grows : (i : ℕ) → is_in i seen ≡ true → is_in i t.seen ≡ true
    pub matching : IsMatching t.matching
    pub keeps :
        (v : Window) → is_matched candidates v mt ≡ true → is_matched candidates v t.matching ≡ true
    pub unseen :
        (v : Window) (i : ℕ)
        → is_in i seen ≡ true
        → lookup v t.matching.match ≡ some i
        → lookup v mt.match ≡ some i
    pub given :
        t.done ≡ true → (i : ℕ) × ((lookup w t.matching.match ≡ some i) × (is_in i seen ≡ false))

  take_over-IsTried :
      (w : Window) (i : ℕ) (seen : List ℕ) (mt : Matching) (t : Try)
      → is_in i seen ≡ false
      → is_in i (candidates w) ≡ true
      → ((v : Window) → lookup v t.matching.match ≡ some i → ⊥)
      → ((j : ℕ) → is_in j (i ∷ seen) ≡ true → is_in j t.seen ≡ true)
      → IsMatching t.matching
      → ((v : Window)
          → is_matched candidates v mt ≡ true
          → is_matched candidates v t.matching ≡ true)
      → ((v : Window) (j : ℕ)
          → is_in j (i ∷ seen) ≡ true
          → lookup v t.matching.match ≡ some j
          → lookup v mt.match ≡ some j)
      → IsTried w seen mt
          (record { done = true; seen = t.seen; matching = take_over w i t.matching })
  unfolding take_over
  take_over-IsTried w i seen mt t new drawn alone grows ok keeps unseen =
      let found = λ (v : Window). lookup-insert w v i t.matching.match in
      let holds = λ (j : ℕ). lookup-insert i j w t.matching.owner in
      record {
        grows = λ j h. grows j (ground (arith, h));
        matching = record {
          owned =
              λ v j e. ground (arith, found v, holds j, pair_eq.agrees w v, alone v, ok.owned v j);
          drawn = λ v j e. ground (arith, found v, pair_eq.agrees w v, ok.drawn v j);
          once = insert-Once w i t.matching.match ok.once;
        };
        keeps = λ v h. ground (arith, found v, keeps v h);
        unseen = λ v j h e. ground (arith, found v, unseen v j);
        given = λ e. (i, (ground (arith, found w, pair_eq.agrees w w), new));
      }

  -- What a try leaves for another window, when the peer has been noted as seen.
  pub record IsFreed (i : ℕ) (seen : List ℕ) (mt : Matching) (t : Try) : Type 0 where
    pub grows : (j : ℕ) → is_in j (i ∷ seen) ≡ true → is_in j t.seen ≡ true
    pub matching : IsMatching t.matching
    pub keeps :
        (v : Window) → is_matched candidates v mt ≡ true → is_matched candidates v t.matching ≡ true
    pub unseen :
        (v : Window) (j : ℕ)
        → is_in j (i ∷ seen) ≡ true
        → lookup v t.matching.match ≡ some j
        → lookup v mt.match ≡ some j
    pub alone : t.done ≡ true → (v : Window) → lookup v t.matching.match ≡ some i → ⊥

  module _ (again : Window → List ℕ → Matching → Try)
      (ih : (w : Window) (seen : List ℕ) (mt : Matching)
        → IsMatching mt
        → IsTried w seen mt (again w seen mt)) where
    pub freed-IsFreed :
        (o : Option Window) (i : ℕ) (seen : List ℕ) (mt : Matching)
        → lookup i mt.owner ≡ o
        → IsMatching mt
        → IsFreed i seen mt (Match.freed again o (i ∷ seen) mt)
    freed-IsFreed none i seen mt free ok = record {
      grows = λ j h. h;
      matching = ok;
      keeps = λ v h. h;
      unseen = λ v j h e. e;
      alone = λ d v e. absurd (none-ne-some _ (sym free ∙ ok.owned v i e));
    }
    freed-IsFreed (some u) i seen mt owned ok =
        let tried = ih u (i ∷ seen) mt ok in
        record {
          grows = tried.grows;
          matching = tried.matching;
          keeps = tried.keeps;
          unseen = tried.unseen;
          alone = λ d v e.
              let was = tried.unseen v i (ground (arith, number_eq.agrees i i)) e in
              let same : u ≡ v = some-injective _ _ (sym owned ∙ ok.owned v i was) in
              let (j, (at, new)) = tried.given d in ground (arith, same);
        }

    IsTried-after :
        (w : Window) (i : ℕ) (seen : List ℕ) (mt : Matching) (t t' : Try)
        → IsFreed i seen mt t
        → IsTried w t.seen t.matching t'
        → IsTried w seen mt t'
    IsTried-after w i seen mt t t' f after = record {
      grows = λ j h. after.grows j (f.grows j (ground (arith, h)));
      matching = after.matching;
      keeps = λ v h. after.keeps v (f.keeps v h);
      unseen = λ v j h e.
          f.unseen v j (ground (arith, h)) (after.unseen v j (f.grows j (ground (arith, h))) e);
      given = λ d. let (j, (at, new)) = after.given d in (j, (at, ground (arith, f.grows j)));
    }

    try_each-IsTried :
        (w : Window) (is seen : List ℕ) (mt : Matching)
        → ((j : ℕ) → is_in j is ≡ true → is_in j (candidates w) ≡ true)
        → IsMatching mt
        → IsTried w seen mt (Match.try_each again w is seen mt)
    unfolding Match.try_each
    try_each-IsTried w [] seen mt drawn ok = record {
      grows = λ j h. h;
      matching = ok;
      keeps = λ v h. h;
      unseen = λ v j h e. e;
      given = λ d. absurd (false≢true d);
    }
    try_each-IsTried w (i ∷ is) seen mt drawn ok =
        let t = Match.freed again (lookup i mt.owner) (i ∷ seen) mt in
        let f = freed-IsFreed (lookup i mt.owner) i seen mt refl ok in
        let rest : ((j : ℕ) → is_in j is ≡ true → is_in j (candidates w) ≡ true) =
          λ j h. drawn j (ground (arith, h)) in
        elim (Bool-cases (is_in i seen)) [
          | inl old ↦ rw old (try_each-IsTried w is seen mt rest ok)
          | inr new ↦ rw new (elim (Bool-cases t.done) [
            | inl d ↦ rw d (
                take_over-IsTried w i seen mt t new (drawn i (ground arith)) (f.alone d) f.grows
                  f.matching f.keeps f.unseen)
            | inr d ↦ rw d (
                IsTried-after w i seen mt t _ f
                  (try_each-IsTried w is t.seen t.matching rest f.matching))
          ])
        ]

  pub augment-IsTried :
      (fuel : ℕ) (w : Window) (seen : List ℕ) (mt : Matching)
      → IsMatching mt
      → IsTried w seen mt (Match.augment candidates fuel w seen mt)
  unfolding Match.augment
  augment-IsTried zero w seen mt ok = record {
    grows = λ j h. h;
    matching = ok;
    keeps = λ v h. h;
    unseen = λ v j h e. e;
    given = λ d. absurd (false≢true d);
  }
  augment-IsTried (suc fuel) w seen mt ok =
      try_each-IsTried (Match.augment candidates fuel) (augment-IsTried fuel) w (candidates w) seen
        mt (λ j h. h) ok

  pub match_all-IsMatching :
      (fuel : ℕ) (ws : List Window) (mt mt' : Matching)
      → IsMatching mt
      → Match.match_all candidates fuel ws mt ≡ some mt'
      → IsMatching mt'
        × All (λ w. is_matched candidates w mt' ≡ true) ws
        × ((v : Window) → is_matched candidates v mt ≡ true → is_matched candidates v mt' ≡ true)
  unfolding Match.match_all
  match_all-IsMatching fuel [] mt mt' ok e =
      let same : mt ≡ mt' = some-injective _ _ e in
      subst
        (λ x.
          IsMatching x
          × Unit
          × ((v : Window) → is_matched candidates v mt ≡ true → is_matched candidates v x ≡ true))
        same (ok, tt, λ v h. h)
  match_all-IsMatching fuel (w ∷ ws) mt mt' ok e =
      let t = Match.augment candidates fuel w [] mt in
      let tried = augment-IsTried fuel w [] mt ok in
      elim (Bool-cases (is_matched candidates w mt)) [
        | inl held ↦
            let (good, all, keeps) = match_all-IsMatching fuel ws mt mt' ok (rw held at e) in
            (good, (keeps w held, all), keeps)
        | inr bare ↦ elim (Bool-cases t.done) [
          | inl d ↦
              let (good, all, keeps) =
                match_all-IsMatching fuel ws t.matching mt' tried.matching (rw (bare, d) at e) in
              let (j, (at, new)) = tried.given d in
              (good, (keeps w (ground (arith, at)), all), λ v h. keeps v (tried.keeps v h))
          | inr d ↦ absurd (none-ne-some _ (rw (bare, d) at e))
        ]
      ]
