-- ===== src/Prelude/Result.antt =====
-- What a call returns or raises, with `do`, and the rules to reason about a sequence of calls.
use mathlib.Core.Path.{◌≡◌, refl, subst}
use mathlib.Core.Bool.{Bool, true, false}

pub data Result {ℓ} (E : Type 0) (A : Type ℓ) : Type ℓ where
  ok : A → Result E A
  err : E → Result E A

infixl 5 ◌>>=◌ ◌>>◌
abbrev pub ◌>>=◌ {ℓ κ} :
    {E : Type 0} {A : Type ℓ} {B : Type κ} → Result E A → (A → Result E B) → Result E B
ok a >>= f = f a
err e >>= f = err e

abbrev pub ◌>>◌ {ℓ} : {E : Type 0} {B : Type ℓ} → Result E (Unit {0}) → Result E B → Result E B
m >> k = m >>= λ _. k

-- `if not b: raise e`
abbrev pub guard : {E : Type 0} → Bool → E → Result E (Unit {0})
guard true e = ok tt
guard false e = err e

-- What is returned has `P`, and what is raised has `Q`.
abbrev pub Gives {ℓ} : {E : Type 0} {A : Type ℓ} → (E → Type 0) → (A → Type 0) → Result E A → Type 0
Gives Q P (ok a) = P a
Gives Q P (err e) = Q e

module _ {E : Type 0} (Q : E → Type 0) where
  pub Gives->>= {ℓ κ} :
      {A : Type ℓ} {B : Type κ} (P : A → Type 0) (R : B → Type 0) (m : Result E A)
      (f : A → Result E B)
      → Gives Q P m
      → ((a : A) → P a → Gives Q R (f a))
      → Gives Q R (m >>= f)
  Gives->>= P R (ok a) f h k = k a h
  Gives->>= P R (err e) f h k = h

  -- A weaker statement on what is returned.
  pub Gives-weaker {ℓ} :
      {A : Type ℓ} (P R : A → Type 0) (m : Result E A)
      → Gives Q P m
      → ((a : A) → P a → R a)
      → Gives Q R m
  Gives-weaker P R (ok a) h k = k a h
  Gives-weaker P R (err e) h k = h

  -- After any value, and after a test that holds.
  pub Gives-any {ℓ κ} :
      {A : Type ℓ} {B : Type κ} (R : B → Type 0) (m : Result E A) (f : A → Result E B)
      → Gives Q (λ (a : A). Unit {0}) m
      → ((a : A) → Gives Q R (f a))
      → Gives Q R (m >>= f)
  Gives-any R (ok a) f h k = k a
  Gives-any R (err e) f h k = h

  pub Gives-guard {κ} :
      {B : Type κ} (R : B → Type 0) (b : Bool) (e : E) (m : Result E B)
      → Q e
      → (b ≡ true → Gives Q R m)
      → Gives Q R (guard b e >> m)
  Gives-guard R true e m q h = h refl
  Gives-guard R false e m q h = q

module _ {E : Type 0} (Q : E → Type 0) where
  pub Gives-test :
      (P : Unit {0} → Type 0) (b : Bool) (e : E) → Q e → (b ≡ true → P tt) → Gives Q P (guard b e)
  Gives-test P true e q h = h refl
  Gives-test P false e q h = q

-- What is returned has `P`, when a value is returned.
pub Gives-ok {ℓ} :
    {E : Type 0} {A : Type ℓ} (Q : E → Type 0) (P : A → Type 0) (m : Result E A)
    → Gives Q P m
    → (a : A) → m ≡ ok a
    → P a
Gives-ok Q P (ok b) h a e = let same : b ≡ a = cc in subst P same h
Gives-ok Q P (err b) h a e = cc
