-- ===== src/Prelude/Tests.antt =====
-- Boolean tests on numbers and texts, the conditional, and the case lemmas that proofs split on.
use Prim.Native.Nat.{ℕ, suc, ◌≤◌, ◌<◌, compare, Ordering}
use Prim.Native.String.{String}
use mathlib.Core.Path.{◌≡◌, refl}
use mathlib.Core.Logic.{◌↔◌, ◌⊎◌, inl, inr}
use mathlib.Core.Bool.{Bool, true, false, ◌&&◌}
use mathlib.Core.Option.{Option, none, some}
use native.Mathlib.Omega.{arith}
use text.Mathlib.Text.{◌==◌ as str_eq}
use text.Mathlib.TextEquality.{eq_iff}

abbrev pub ltb : ℕ → ℕ → Bool
ltb a b = elim (compare a b) [ Ordering.lt ↦ true | _ ↦ false ]

abbrev pub leb : ℕ → ℕ → Bool
leb a b = elim (compare a b) [ Ordering.gt ↦ false | _ ↦ true ]

abbrev pub same_number : ℕ → ℕ → Bool
same_number a b = elim (compare a b) [ Ordering.eq ↦ true | _ ↦ false ]

infix 1 if◌then◌else◌
abbrev pub if◌then◌else◌ {ℓ} : {A : Type ℓ} → Bool → A → A → A
if true then x else y = x
if false then x else y = y

-- Python's `==` of two keys: a test that holds of equal values only.
pub record Equality {ℓ} (Key : Type ℓ) : Type ℓ where
  pub equal : Key → Key → Bool
  pub agrees : (j k : Key) → (equal j k ≡ true) ↔ (j ≡ k)

pub same_number_iff : (m n : ℕ) → (same_number m n ≡ true) ↔ (m ≡ n)
same_number_iff m n = ground arith

instance abbrev pub number_eq : Equality ℕ
number_eq = record { agrees = same_number_iff; equal = same_number }

instance abbrev pub text_eq : Equality String
text_eq = record { agrees = eq_iff; equal = str_eq }

infix 50 ◌==◌
abbrev pub ◌==◌ {ℓ} : {Key : Type ℓ} ⦃key : Equality Key⦄ → Key → Key → Bool
◌==◌ ⦃key⦄ j k = key.equal j k

module _ {ℓ κ} {A : Type ℓ} {B : Type κ} ⦃e : Equality A⦄ ⦃d : Equality B⦄ where
  abbrev pub pair_equal : A × B → A × B → Bool
  pair_equal p q = e.equal p.0 q.0 && d.equal p.1 q.1

  pub pair_agrees : (p q : A × B) → (pair_equal p q ≡ true) ↔ (p ≡ q)
  pair_agrees p q = ground (arith, e.agrees p.0 q.0, d.agrees p.1 q.1)

  instance abbrev pub pair_eq : Equality (A × B)
  pair_eq = record { equal = pair_equal; agrees = pair_agrees }

pub equal_refl {ℓ} : {A : Type ℓ} ⦃e : Equality A⦄ (a : A) → e.equal a a ≡ true
equal_refl ⦃e⦄ a = (e.agrees a a).1 refl

pub ltb→lt : (a b : ℕ) → ltb a b ≡ true → a < b
ltb→lt a b h = ground arith

pub ltb→ge : (a b : ℕ) → ltb a b ≡ false → b ≤ a
ltb→ge a b h = ground arith

pub leb→le : (a b : ℕ) → leb a b ≡ true → a ≤ b
leb→le a b h = ground arith

pub leb→gt : (a b : ℕ) → leb a b ≡ false → b < a
leb→gt a b h = ground arith

pub Bool-cases : (b : Bool) → (b ≡ true) ⊎ (b ≡ false)
Bool-cases true = inl refl
Bool-cases false = inr refl

pub Option-cases {ℓ} : {A : Type ℓ} (o : Option A) → (o ≡ none) ⊎ ((a : A) × (o ≡ some a))
Option-cases none = inl refl
Option-cases (some a) = inr (a, refl)

pub lt-suc-cases : (b a : ℕ) → b < suc a → (b < a) ⊎ (b ≡ a)
lt-suc-cases b a h = grind arith
