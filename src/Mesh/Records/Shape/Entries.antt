-- ===== src/Mesh/Records/Shape/Entries.antt =====
-- commonnet/mesh/records.py: what each field of a record is that passes `check_shape`.
use common_network.Prelude.{
  ℕ, ◌≤◌, ◌<◌, String, ◌≡◌, ◌⊎◌, inl, inr, true, false, ◌||◌, Option, none, some, [], ◌∷◌, arith,
  ◌==◌, text_eq, number_eq, All, Option-cases, Bool-cases,
}
use common_network.Prelude.Text.{text_length}
use common_network.Net.Json.{
  Json, null, flag, int, negative, real, text, arr, obj, nil, cons, Fields, get, has, has-of_get,
}
use common_network.Net.Protocol.{Floats}
use common_network.Net.Protocol.Sampling.{is_number}
use common_network.Net.Chain.{Python, normalize_fingerprint}
use mathlib.Core.Bool.{false≢true}
use mathlib.Core.Path.{sym, ◌∙◌}
use common_network.Mesh.Records.Shape.{
  starts_with, is_text, is_state, is_url, is_short, is_window, is_seq, is_port, is_version,
  is_fingerprint,
}

-- `record["v"] == 1` as Python compares, which `True` and `1.0` satisfy too.
abbrev pub IsVersion : (F : Floats) → Json F.Real → Type 0
IsVersion F (int n) = n ≡ 1
IsVersion F (flag b) = b ≡ true
IsVersion F (real x) = F.is_1 x ≡ true
IsVersion F _ = ⊥

-- A text of a finite length.
abbrev pub IsShort : {Real : Type 0} → ℕ → Json Real → Type 0
IsShort most (text s) = text_length s ≤ most
IsShort most _ = ⊥

abbrev pub IsText : {Real : Type 0} → Json Real → Type 0
IsText (text s) = Unit
IsText _ = ⊥

abbrev pub IsState : {Real : Type 0} → Json Real → Type 0
IsState (text s) = (s ≡ "loading") ⊎ (s ≡ "up") ⊎ (s ≡ "leaving")
IsState _ = ⊥

abbrev pub IsUrl : {Real : Type 0} → Json Real → Type 0
IsUrl null = Unit
IsUrl (text s) =
    (text_length s ≤ 512) × ((starts_with "http://" s ≡ true) ⊎ (starts_with "https://" s ≡ true))
IsUrl _ = ⊥

abbrev pub IsWindow : {Real : Type 0} → Json Real → Type 0
IsWindow null = Unit
IsWindow (arr (cons (int start) (cons (int stop) nil))) = start < stop
IsWindow _ = ⊥

abbrev pub IsSeq : {Real : Type 0} → Json Real → Type 0
IsSeq (int n) = Unit
IsSeq _ = ⊥

abbrev pub IsNumber : {Real : Type 0} → Json Real → Type 0
IsNumber (int n) = Unit
IsNumber (negative n) = Unit
IsNumber (real x) = Unit
IsNumber _ = ⊥

abbrev pub IsPort : {Real : Type 0} → Json Real → Type 0
IsPort (int port) = (1 ≤ port) × (port ≤ 65535)
IsPort _ = ⊥

-- A finite number from 0.
abbrev pub IsSpeed : (F : Floats) → Json F.Real → Type 0
IsSpeed F (int n) = (x : F.Real) × ((F.of_int n ≡ some x) × (F.is_finite x ≡ true))
IsSpeed F (real x) = (F.is_finite x ≡ true) × (F.at_least_0 x ≡ true)
IsSpeed F _ = ⊥

abbrev pub IsFingerprint : {Real : Type 0} → Python → Json Real → Type 0
IsFingerprint py (text fp) = (pin : String) × (normalize_fingerprint py fp ≡ some pin)
IsFingerprint py _ = ⊥

-- The field is there and has `P`, and it has `P` if it is there.
abbrev pub Has : {Real : Type 0} → (Json Real → Type 0) → String → Fields Real → Type 0
Has {Real = Real} P key fs = (v : Json Real) × ((get key fs ≡ some v) × P v)

abbrev pub IfThere : {Real : Type 0} → (Json Real → Type 0) → Option (Json Real) → Type 0
IfThere P none = Unit
IfThere P (some v) = P v

pub record HasSigned (F : Floats) (fs : Fields F.Real) : Type 0 where
  pub version : Has (IsVersion F) "v" fs
  pub texts :
      All
        (λ (key : String). Has IsText key fs)
        ("network" ∷ "peer" ∷ "pub" ∷ "backend" ∷ "state" ∷ "token" ∷ [])
  pub state : Has IsState "state" fs
  pub url : Has IsUrl "url" fs
  pub token : Has (IsShort 256) "token" fs
  pub window : Has IsWindow "window" fs
  pub seq : Has IsSeq "seq" fs
  pub gib : Has IsNumber "gib" fs
  pub ts : Has IsNumber "ts" fs

pub record HasOptional (F : Floats) (py : Python) (fs : Fields F.Real) : Type 0 where
  pub dht : IfThere IsPort (get "dht" fs)
  pub speed : IfThere (IsSpeed F) (get "speed" fs)
  pub paired : has "fp" fs ≡ has "fpsig" fs
  pub fp : IfThere (IsFingerprint py) (get "fp" fs)
  pub fpsig : IfThere (IsShort 128) (get "fpsig" fs)

state_of :
    (s : String)
    → (s == "loading" || (s == "up" || s == "leaving")) ≡ true
    → (s ≡ "loading") ⊎ (s ≡ "up") ⊎ (s ≡ "leaving")
state_of s h = elim (Bool-cases (s == "loading")) [
  | inl e ↦ inl ((text_eq.agrees s "loading").0 e)
  | inr e ↦ elim (Bool-cases (s == "up")) [
    | inl up ↦ inr (inl ((text_eq.agrees s "up").0 up))
    | inr up ↦ inr (inr ((text_eq.agrees s "leaving").0 (ground arith)))
  ]
]

module _ {Real : Type 0} where
  pub is_window-IsWindow : (v : Json Real) → is_window v ≡ true → IsWindow v
  unfolding is_window
  is_window-IsWindow v h = ground arith

  pub is_seq-IsSeq : (v : Json Real) → is_seq v ≡ true → IsSeq v
  unfolding is_seq
  is_seq-IsSeq v h = ground arith

  pub is_text-IsText : (v : Json Real) → is_text v ≡ true → IsText v
  unfolding is_text
  is_text-IsText v h = ground arith

  pub is_short-IsShort : (most : ℕ) (v : Json Real) → is_short most v ≡ true → IsShort most v
  unfolding is_short
  is_short-IsShort most v h = ground arith

  pub is_port-IsPort : (v : Json Real) → is_port v ≡ true → IsPort v
  unfolding is_port
  is_port-IsPort v h = ground arith

  pub is_state-IsState : (v : Json Real) → is_state v ≡ true → IsState v
  unfolding is_state
  is_state-IsState (text s) h = state_of s h
  is_state-IsState null h = absurd (false≢true h)
  is_state-IsState (flag b) h = absurd (false≢true h)
  is_state-IsState (int n) h = absurd (false≢true h)
  is_state-IsState (negative n) h = absurd (false≢true h)
  is_state-IsState (real x) h = absurd (false≢true h)
  is_state-IsState (arr xs) h = absurd (false≢true h)
  is_state-IsState (obj fs) h = absurd (false≢true h)

  pub is_url-IsUrl : (v : Json Real) → is_url v ≡ true → IsUrl v
  unfolding is_url
  is_url-IsUrl v h = ground arith

  pub IfThere-absent :
      (P : Json Real → Type 0) (key : String) (fs : Fields Real)
      → has key fs ≡ false
      → IfThere P (get key fs)
  IfThere-absent P key fs h = elim (Option-cases (get key fs)) [
    | inl e ↦ rw e tt
    | inr (v, e) ↦ absurd (false≢true (sym h ∙ has-of_get key fs v e))
  ]

pub is_fingerprint-IsFingerprint :
    (F : Floats) (py : Python) (v : Json F.Real) → is_fingerprint F py v ≡ true → IsFingerprint py v
unfolding is_fingerprint
is_fingerprint-IsFingerprint F py (text fp) h = elim (Option-cases (normalize_fingerprint py fp)) [
  | inl e ↦ cc
  | inr found ↦ found
]
is_fingerprint-IsFingerprint F py null h = absurd (false≢true h)
is_fingerprint-IsFingerprint F py (flag b) h = absurd (false≢true h)
is_fingerprint-IsFingerprint F py (int n) h = absurd (false≢true h)
is_fingerprint-IsFingerprint F py (negative n) h = absurd (false≢true h)
is_fingerprint-IsFingerprint F py (real x) h = absurd (false≢true h)
is_fingerprint-IsFingerprint F py (arr xs) h = absurd (false≢true h)
is_fingerprint-IsFingerprint F py (obj fs) h = absurd (false≢true h)

module _ (F : Floats) (py : Python) where
  pub is_version-IsVersion : (v : Json F.Real) → is_version F py v ≡ true → IsVersion F v
  unfolding is_version
  is_version-IsVersion v h = ground (arith, number_eq.agrees)

  pub is_number-IsNumber : (v : Json F.Real) → is_number F v ≡ true → IsNumber v
  unfolding is_number
  is_number-IsNumber v h = ground arith
