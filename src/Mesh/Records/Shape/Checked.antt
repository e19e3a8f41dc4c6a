-- ===== src/Mesh/Records/Shape/Checked.antt =====
-- What a record is that passes `check_shape`, and what the check raises.
use common_network.Prelude.{
  ◌≡◌, refl, sym, ap, ◌∙◌, inl, inr, Bool, true, ◌&&◌, ◌||◌, not, Option, none, some, arith, ◌==◌,
  text_eq, number_eq, length, Option-cases, by_test,
}
use mathlib.Core.Option.{some-injective}
use common_network.Prelude.Result.{ok, Gives, Gives->>=, Gives-guard, Gives-weaker, Gives-test}
use common_network.Net.Json.{
  Raised, Json, null, flag, int, negative, real, text, arr, obj, Fields, get, has, missing,
}
use common_network.Net.Protocol.{Floats}
use common_network.Net.Protocol.Checked.{missing-none}
use common_network.Net.Protocol.Sampling.{is_number, to_float}
use common_network.Net.Protocol.Short.{is_finite}
use common_network.Net.Chain.{Python}
use common_network.Mesh.Records.Shape.{
  signed_fields, is_text, is_short, check_port, check_speed, check_pin, check_optional,
  check_signed, check_shape, at_least_0, is_port, is_fingerprint,
}
use common_network.Mesh.Records.Shape.Entries.{
  HasSigned, HasOptional, IfThere, IsPort, IsSpeed, IsFingerprint, IsShort, is_short-IsShort,
  is_port-IsPort, is_fingerprint-IsFingerprint, IfThere-absent,
}
use common_network.Mesh.Records.Shape.Required
use common_network.Mesh.Records.Shape.Required.{HasHugeSpeed, IsRaisedBy}

-- Every field of the record is what `check_shape` asks for.
pub record IsShaped (F : Floats) (py : Python) (j : Json F.Real) (fs : Fields F.Real) : Type 0 where
  pub same : j ≡ obj fs
  pub required : HasSigned F fs
  pub optional : HasOptional F py fs

module _ (F : Floats) (py : Python) (fs : Fields F.Real) where
  abbrev Q : Raised → Type 0
  Q e = IsRaisedBy F (obj fs) e

  abbrev Shaped : Unit {0} → Type 0
  Shaped u = HasSigned F fs

  check_port-Gives :
      (o : Option (Json F.Real)) → Gives Q (λ (u : Unit {0}). IfThere IsPort o) (check_port F py o)
  unfolding check_port
  check_port-Gives none = tt
  check_port-Gives (some v) =
      Gives-test Q (λ (u : Unit {0}). IsPort v) (is_port v) _ tt (is_port-IsPort v)

  finite-Gives :
      (v : Json F.Real)
      → get "speed" fs ≡ some v
      → is_number F v ≡ true
      → Gives Q
          (λ (b : Bool). (x : F.Real) × ((to_float F v ≡ some x) × (F.is_finite x ≡ b)))
          (is_finite F v)
  unfolding is_finite
  finite-Gives v e n = elim (Option-cases (to_float F v)) [
    | inl o ↦ rw (Gives, is_finite, o) (v, (e, (n, o)))
    | inr (x, o) ↦ rw (Gives, is_finite, o) (x, (o, refl))
  ]

  to_float-IsSpeed :
      (v : Json F.Real) (finite : Bool)
      → (x : F.Real) × ((to_float F v ≡ some x) × (F.is_finite x ≡ finite))
      → (finite && at_least_0 F py v) ≡ true
      → IsSpeed F v
  unfolding at_least_0 to_float
  to_float-IsSpeed (int n) finite (x, (o, f)) h = (x, (o, ground (arith, f)))
  to_float-IsSpeed (real y) finite (x, (o, f)) h =
      let same : y ≡ x = some-injective _ _ o in
      (ap F.is_finite same ∙ ground (arith, f), ground arith)
  to_float-IsSpeed null finite (x, (o, f)) h = ground arith
  to_float-IsSpeed (flag b) finite (x, (o, f)) h = ground arith
  to_float-IsSpeed (negative n) finite (x, (o, f)) h = ground arith
  to_float-IsSpeed (text s) finite (x, (o, f)) h = ground arith
  to_float-IsSpeed (arr xs) finite (x, (o, f)) h = ground arith
  to_float-IsSpeed (obj gs) finite (x, (o, f)) h = ground arith

  check_speed-Gives :
      (o : Option (Json F.Real))
      → get "speed" fs ≡ o
      → Gives Q (λ (u : Unit {0}). IfThere (IsSpeed F) o) (check_speed F py o)
  unfolding check_speed
  check_speed-Gives none e = tt
  check_speed-Gives (some v) e =
      Gives-guard Q (λ (u : Unit {0}). IsSpeed F v) (is_number F v) _ _ tt
        (λ n.
          Gives->>= Q _ (λ (u : Unit {0}). IsSpeed F v) (is_finite F v) _ (finite-Gives v e n)
            (λ (b : Bool) (x : (x : F.Real) × ((to_float F v ≡ some x) × (F.is_finite x ≡ b))).
              Gives-test Q (λ (u : Unit {0}). IsSpeed F v) (b && at_least_0 F py v) _ tt
                (to_float-IsSpeed v b x)))

  abbrev IsPinned : Unit {0} → Type 0
  IsPinned u = IfThere (IsFingerprint py) (get "fp" fs) × IfThere (IsShort 128) (get "fpsig" fs)

  check_pin-Gives :
      has "fp" fs ≡ true → has "fpsig" fs ≡ true → Gives Q IsPinned (check_pin F py fs)
  unfolding check_pin
  check_pin-Gives h k = Required.Gives-entry F py fs IsPinned "fp" _ h (λ (fp : Json F.Real) e.
      Required.Gives-entry F py fs IsPinned "fpsig" _ k (λ (fpsig : Json F.Real) e'.
        Gives-guard Q IsPinned (is_text fp && is_short 128 fpsig) _ _ tt (λ b.
          Gives-test Q IsPinned (is_fingerprint F py fp) _ tt (λ f. (
            rw e (is_fingerprint-IsFingerprint F py fp f),
            rw e' (is_short-IsShort 128 fpsig (ground arith)),
          )))))

  abbrev Extra : Unit {0} → Type 0
  Extra u = HasOptional F py fs

  check_optional-Gives : Gives Q Extra (check_optional F py fs)
  unfolding check_optional
  check_optional-Gives =
      Gives->>= Q (λ (u : Unit {0}). IfThere IsPort (get "dht" fs)) Extra
        (check_port F py (get "dht" fs)) _ (check_port-Gives (get "dht" fs))
        (λ (u : Unit {0}) (port : IfThere IsPort (get "dht" fs)).
          Gives->>= Q (λ (u : Unit {0}). IfThere (IsSpeed F) (get "speed" fs)) Extra
            (check_speed F py (get "speed" fs)) _ (check_speed-Gives (get "speed" fs) refl)
            (λ (u' : Unit {0}) (speed : IfThere (IsSpeed F) (get "speed" fs)).
              Gives-guard Q Extra
                (has "fp" fs && has "fpsig" fs || not (has "fp" fs) && not (has "fpsig" fs)) _ _ tt
                (λ both.
                  let paired : has "fp" fs ≡ has "fpsig" fs = ground arith in
                  by_test (Gives Q Extra) (has "fp" fs) (check_pin F py fs) (ok tt)
                    (λ e.
                      Gives-weaker Q IsPinned Extra (check_pin F py fs)
                        (check_pin-Gives e (sym paired ∙ e))
                        (λ (w : Unit {0}) (p : IsPinned w). record {
                          dht = port;
                          speed = speed;
                          paired = paired;
                          fp = p.0;
                          fpsig = p.1;
                        }))
                    (λ e. record {
                      dht = port;
                      speed = speed;
                      paired = paired;
                      fp = IfThere-absent (IsFingerprint py) "fp" fs e;
                      fpsig = IfThere-absent (IsShort 128) "fpsig" fs (sym paired ∙ e);
                    }))))

  check_object-Gives : Gives Q (IsShaped F py (obj fs)) (check_shape F py (obj fs))
  unfolding check_shape
  check_object-Gives =
      Gives-guard Q (IsShaped F py (obj fs)) (length (missing signed_fields fs) == 0) _ _ tt (λ e.
        Gives->>= Q Shaped (IsShaped F py (obj fs)) (check_signed F py fs) _
          (Required.check_signed-Gives F py fs
            (missing-none signed_fields fs ((number_eq.agrees _ _).0 e)))
          (λ (u : Unit {0}) (h : HasSigned F fs).
            Gives->>= Q Extra (IsShaped F py (obj fs)) (check_optional F py fs) _
              check_optional-Gives
              (λ (u' : Unit {0}) (x : HasOptional F py fs). record {
                same = refl;
                required = h;
                optional = x;
              })))

-- A record that passes is well formed, and a `RecordError` is raised of any other, or an
-- `OverflowError` of its speed.
pub check_shape-Gives :
    (F : Floats) (py : Python) (j : Json F.Real)
    → Gives (IsRaisedBy F j) (IsShaped F py j) (check_shape F py j)
unfolding check_shape
check_shape-Gives F py (obj fs) = check_object-Gives F py fs
check_shape-Gives F py null = tt
check_shape-Gives F py (flag b) = tt
check_shape-Gives F py (int n) = tt
check_shape-Gives F py (negative n) = tt
check_shape-Gives F py (real x) = tt
check_shape-Gives F py (text s) = tt
check_shape-Gives F py (arr xs) = tt
