-- ===== src/Net/Protocol/Examples.antt =====
-- A small model of floats and of base64, for the examples.
use common_network.Prelude.{
  ◌&&◌, ℕ, zero, suc, ◌+◌, ◌^◌, String, ◌≡◌, refl, ap, ◌∙◌, Bool, true, false, Option, none, some,
  List, [], ◌∷◌, arith, ltb, leb, if◌then◌else◌, ◌==◌, text_eq, number_eq,
}
use common_network.Net.Protocol.{Floats, Base64}
use Prim.Native.Char.{code}

-- Whole floats below 2^1024, and one value for those below 0.
abbrev pub of_nat : ℕ → Option (Option ℕ)
of_nat n = if ltb n (2 ^ 1024) then some (some n) else none

abbrev pub above : Option ℕ → ℕ → Bool
above none m = false
above (some n) m = leb m n

abbrev pub below : Option ℕ → ℕ → Bool
below none m = true
below (some n) m = leb n m

abbrev pub at_one : Option ℕ → Bool
at_one none = false
at_one (some n) = leb n 1 && leb 1 n

abbrev pub whole : Floats
whole = record {
  Real = Option ℕ;
  of_int = of_nat;
  of_negative = λ n. some none;
  is_finite = λ x. true;
  is_positive = λ x. above x 1;
  at_least_0 = λ x. above x 0;
  at_most = below;
  is_1 = λ x. at_one x;
  round_3 = λ x. x;
}

-- Bytes in unary: as many `a` as the byte, then `b`.
abbrev pub marks : ℕ → String → String
marks zero s = String.◌∷◌ "b" s
marks (suc n) s = String.◌∷◌ "a" (marks n s)

abbrev pub to_unary : List ℕ → String
to_unary [] = ""
to_unary (n ∷ ns) = marks n (to_unary ns)

abbrev pub prefixed : ℕ → Option (List ℕ) → Option (List ℕ)
prefixed n none = none
prefixed n (some ns) = some (n ∷ ns)

abbrev pub from_unary : ℕ → String → Option (List ℕ)
from_unary n String.[] = elim n [ zero ↦ some [] | suc m ↦ none ]
from_unary n (String.◌∷◌ c s) =
    let more = from_unary (suc n) s in
    let done = from_unary 0 s in
    if code c == 97 then more else if code c == 98 then prefixed n done else none

from_unary-marks :
    (n k : ℕ) (s : String) → from_unary k (marks n s) ≡ prefixed (k + n) (from_unary 0 s)
from_unary-marks zero k s = ap (λ m. prefixed m (from_unary 0 s)) (omega arith)
from_unary-marks (suc n) k s =
    from_unary-marks n (suc k) s ∙ ap (λ m. prefixed m (from_unary 0 s)) (omega arith)

pub from_unary-to_unary : (ns : List ℕ) → from_unary 0 (to_unary ns) ≡ some ns
from_unary-to_unary [] = refl
from_unary-to_unary (n ∷ ns) =
    from_unary-marks n 0 (to_unary ns)
    ∙ rw (from_unary-to_unary ns) (ap (λ m. some (m ∷ ns)) (omega arith))

abbrev pub unary : Base64
unary = record {
  b64encode = to_unary;
  b64decode = from_unary 0;
  decode-encode = from_unary-to_unary;
}
