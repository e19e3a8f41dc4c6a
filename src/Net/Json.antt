-- ===== src/Net/Json.antt =====
-- The values that `json.loads` gives, and Python's dictionaries of them.
use common_network.Prelude.{
  ℕ, suc, String, ◌≡◌, refl, sym, ◌∙◌, inl, inr, Bool, true, false, ◌||◌, Option, none, some, List,
  [], ◌∷◌, arith, if◌then◌else◌, ◌==◌, text_eq, number_eq, any, Option-cases,
}
use mathlib.Core.Bool.{false≢true}
use mathlib.Core.Option.{none-ne-some}
use common_network.Prelude.Result.{Result, ok, err, ◌>>=◌}

-- What a decoder raises: `ProtocolError` with the message less the values it quotes, `KeyError`,
-- and the `OverflowError` of an integer that is no float; `RecordError` is that of a peer's record.
pub data Raised : Type 0 where
  protocol_error : String → Raised
  key_error : String → Raised
  overflow_error : Raised
  record_error : String → Raised

mutual
  -- An integer is `int n` or, below 0, `negative n` for -(n + 1). `Real` is the type of floats.
  pub data Json (Real : Type 0) : Type 0 where
    null : Json Real
    flag : Bool → Json Real
    int : ℕ → Json Real
    negative : ℕ → Json Real
    real : Real → Json Real
    text : String → Json Real
    arr : Items Real → Json Real
    obj : Fields Real → Json Real

  pub data Items (Real : Type 0) : Type 0 where
    nil : Items Real
    cons : Json Real → Items Real → Items Real

  -- A dictionary in the order of insertion.
  pub data Fields (Real : Type 0) : Type 0 where
    end : Fields Real
    field : String → Json Real → Fields Real → Fields Real

module _ {Real : Type 0} where
  -- `len(items)`
  abbrev pub items_length : Items Real → ℕ
  items_length nil = 0
  items_length (cons x xs) = suc (items_length xs)

  -- The list of some numbers, of some texts and of some values.
  abbrev pub int_items : List ℕ → Items Real
  int_items [] = nil
  int_items (n ∷ ns) = cons (int n) (int_items ns)

  abbrev pub text_items : List String → Items Real
  text_items [] = nil
  text_items (s ∷ ss) = cons (text s) (text_items ss)

  abbrev pub obj_items : List (Fields Real) → Items Real
  obj_items [] = nil
  obj_items (f ∷ fs) = cons (obj f) (obj_items fs)

  -- `fields.get(key)`
  abbrev pub get : String → Fields Real → Option (Json Real)
  get key end = none
  get key (field k v fs) = if k == key then some v else get key fs

  -- `key in fields`
  abbrev pub has : String → Fields Real → Bool
  has key end = false
  has key (field k v fs) = k == key || has key fs

  -- `fields[key]`
  abbrev pub item : String → Fields Real → Result Raised (Json Real)
  item key fs = elim (get key fs) [ none ↦ err (key_error key) | some v ↦ ok v ]

  -- `fields[key] = value`
  abbrev pub set : String → Json Real → Fields Real → Fields Real
  set key value end = field key value end
  set key value (field k v fs) =
      let rest = set key value fs in if k == key then field k value fs else field k v rest

  -- `fields.update(others)`
  abbrev pub update : Fields Real → Fields Real → Fields Real
  update fs end = fs
  update fs (field k v others) = update (set k v fs) others

  -- `{key: fields[key] for key in keys}`
  abbrev pub picked : List String → Fields Real → Result Raised (Fields Real)
  picked [] fs = ok end
  picked (key ∷ keys) fs = do v ← item key fs; rest ← picked keys fs; ok (field key v rest)

  -- `[key for key in keys if key not in fields]`
  abbrev pub missing : List String → Fields Real → List String
  missing [] fs = []
  missing (key ∷ keys) fs = let rest = missing keys fs in if has key fs then rest else key ∷ rest

  -- `[key for key in fields if key not in keys]`
  abbrev pub unknown : List String → Fields Real → List String
  unknown keys end = []
  unknown keys (field k v fs) =
      let rest = unknown keys fs in if any (λ (key : String). key == k) keys then rest else k ∷ rest

  pub has-get : (key : String) (fs : Fields Real) → get key fs ≡ none → has key fs ≡ false
  has-get key end h = refl
  has-get key (field k v fs) h = ground (arith, has-get key fs)

  -- A key that is in the dictionary has a value there.
  pub item-of_has :
      (key : String) (fs : Fields Real) → has key fs ≡ true → (v : Json Real) × (item key fs ≡ ok v)
  item-of_has key fs h = elim (Option-cases (get key fs)) [
    | inl e ↦ absurd (false≢true (sym (has-get key fs e) ∙ h))
    | inr (v, e) ↦ (v, rw (item, e) refl)
  ]

  -- A key that is not in the dictionary has none.
  pub get-none : (key : String) (fs : Fields Real) → has key fs ≡ false → get key fs ≡ none
  get-none key end h = refl
  get-none key (field k v fs) h = ground (arith, get-none key fs)

  pub get-of_has :
      (key : String) (fs : Fields Real)
      → has key fs ≡ true
      → (v : Json Real) × (get key fs ≡ some v)
  get-of_has key fs h = elim (Option-cases (get key fs)) [
    | inl e ↦ absurd (false≢true (sym (has-get key fs e) ∙ h))
    | inr (v, e) ↦ (v, e)
  ]

  pub has-of_get :
      (key : String) (fs : Fields Real) (v : Json Real) → get key fs ≡ some v → has key fs ≡ true
  has-of_get key end v h = absurd (none-ne-some _ h)
  has-of_get key (field k w fs) v h = ground (arith, has-of_get key fs v)
