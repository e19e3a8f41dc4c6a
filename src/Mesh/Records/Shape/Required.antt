-- ===== src/Mesh/Records/Shape/Required.antt =====
-- The fields that every record has, of a record that passes `check_shape`, and what the check raises.
use common_network.Prelude.{
  String, ◌≡◌, refl, sym, true, none, some, List, [], ◌∷◌, text_eq, number_eq, All,
}
use mathlib.Core.Path.{subst}
use common_network.Prelude.Result.{
  Result, ok, ◌>>=◌, Gives, Gives->>=, Gives-guard, Gives-weaker, Gives-test,
}
use common_network.Net.Json.{
  Raised, record_error, overflow_error, protocol_error, key_error, Json, obj, Fields, item, get,
  has, get-of_has,
}
use common_network.Net.Protocol.{Floats}
use common_network.Net.Protocol.Sampling.{is_number, to_float}
use common_network.Net.Chain.{Python}
use common_network.Mesh.Records.Shape.{
  signed_fields, text_fields, is_text, check_texts, is_state, is_url, is_short, max_token_chars,
  is_window, is_seq, is_version, check_signed,
}
use common_network.Mesh.Records.Shape.Entries.{
  HasSigned, Has, IsText, is_window-IsWindow, is_seq-IsSeq, is_text-IsText, is_short-IsShort,
  is_state-IsState, is_url-IsUrl, is_version-IsVersion, is_number-IsNumber,
}

-- The speed of the record is an integer that is no float.
abbrev pub HasHugeSpeed : (F : Floats) → Json F.Real → Type 0
HasHugeSpeed F (obj fs) =
    (v : Json F.Real) × ((get "speed" fs ≡ some v)
      × ((is_number F v ≡ true) × (to_float F v ≡ none)))
HasHugeSpeed F _ = ⊥

-- The error is a `RecordError`, or an `OverflowError` of the speed.
abbrev pub IsRaisedBy : (F : Floats) → Json F.Real → Raised → Type 0
IsRaisedBy F j (record_error m) = Unit
IsRaisedBy F j overflow_error = HasHugeSpeed F j
IsRaisedBy F j (protocol_error m) = ⊥
IsRaisedBy F j (key_error k) = ⊥

module _ (F : Floats) (py : Python) (fs : Fields F.Real) where
  abbrev pub Q : Raised → Type 0
  Q e = IsRaisedBy F (obj fs) e

  pub Gives-entry {κ} :
      {B : Type κ} (R : B → Type 0) (key : String) (f : Json F.Real → Result Raised B)
      → has key fs ≡ true
      → ((v : Json F.Real) → get key fs ≡ some v → Gives Q R (f v))
      → Gives Q R (item key fs >>= f)
  Gives-entry R key f h k =
      let (v, e) = get-of_has key fs h in
      let found : item key fs ≡ ok v = rw (item, e) refl in
      subst (λ m. Gives Q R (m >>= f)) (sym found) (k v e)

  check_texts-Gives :
      (keys : List String)
      → All (λ (k : String). has k fs ≡ true) keys
      → Gives Q
          (λ (u : Unit {0}). All (λ (key : String). Has IsText key fs) keys)
          (check_texts keys fs)
  unfolding check_texts
  check_texts-Gives [] h = tt
  check_texts-Gives (key ∷ keys) h = Gives-entry _ key _ h.0 (λ (v : Json F.Real) e.
      Gives-guard Q _ (is_text v) _ _ tt (λ b.
        Gives-weaker Q (λ (u : Unit {0}). All (λ (key : String). Has IsText key fs) keys) _
          (check_texts keys fs) (check_texts-Gives keys h.1)
          (λ (u : Unit {0}) t. ((v, (e, is_text-IsText v b)), t))))

  abbrev pub Shaped : Unit {0} → Type 0
  Shaped u = HasSigned F fs

  pub check_signed-Gives :
      All (λ (k : String). has k fs ≡ true) signed_fields → Gives Q Shaped (check_signed F py fs)
  unfolding check_signed
  check_signed-Gives h = Gives-entry Shaped "v" _ h.0 (λ (v_v : Json F.Real) e_v.
      Gives-guard Q Shaped (is_version F py v_v) _ _ tt (λ t_v.
        Gives->>= Q _ Shaped (check_texts text_fields fs) _
          (check_texts-Gives text_fields (
            h.1.0,
            (h.1.1.0, (h.1.1.1.0, (h.1.1.1.1.1.1.1.0, (h.1.1.1.1.1.1.1.1.0, (h.1.1.1.1.1.0, tt))))),
          ))
          (λ (u : Unit {0}) (texts : All (λ (key : String). Has IsText key fs) text_fields).
            Gives-entry Shaped "state" _ h.1.1.1.1.1.1.1.1.0 (λ (v_state : Json F.Real) e_state.
              Gives-guard Q Shaped (is_state v_state) _ _ tt (λ t_state.
                Gives-entry Shaped "url" _ h.1.1.1.1.0 (λ (v_url : Json F.Real) e_url.
                  Gives-guard Q Shaped (is_url v_url) _ _ tt (λ t_url.
                    Gives-entry Shaped "token" _ h.1.1.1.1.1.0 (λ (v_token : Json F.Real) e_token.
                      Gives-guard Q Shaped (is_short max_token_chars v_token) _ _ tt (λ t_token.
                        Gives-entry Shaped "window" _ h.1.1.1.1.1.1.0
                          (λ (v_window : Json F.Real) e_window.
                            Gives-guard Q Shaped (is_window v_window) _ _ tt (λ t_window.
                              Gives-entry Shaped "seq" _ h.1.1.1.1.1.1.1.1.1.1.0
                                (λ (v_seq : Json F.Real) e_seq.
                                  Gives-guard Q Shaped (is_seq v_seq) _ _ tt (λ t_seq.
                                    Gives-entry Shaped "gib" _ h.1.1.1.1.1.1.1.1.1.0
                                      (λ (v_gib : Json F.Real) e_gib.
                                        Gives-guard Q Shaped (is_number F v_gib) _ _ tt (λ t_gib.
                                          Gives-entry Shaped "ts" _ h.1.1.1.1.1.1.1.1.1.1.1.0
                                            (λ (v_ts : Json F.Real) e_ts.
                                              Gives-test Q Shaped (is_number F v_ts) _ tt (λ t_ts.
                                                record {
                                                  version = (
                                                    v_v,
                                                    (e_v, is_version-IsVersion F py v_v t_v),
                                                  );
                                                  texts = texts;
                                                  state = (
                                                    v_state,
                                                    (e_state, is_state-IsState v_state t_state),
                                                  );
                                                  url = (v_url, (e_url, is_url-IsUrl v_url t_url));
                                                  token = (
                                                    v_token,
                                                    (e_token, is_short-IsShort 256 v_token t_token),
                                                  );
                                                  window = (
                                                    v_window,
                                                    (
                                                      e_window,
                                                      is_window-IsWindow v_window t_window,
                                                    ),
                                                  );
                                                  seq = (v_seq, (e_seq, is_seq-IsSeq v_seq t_seq));
                                                  gib = (
                                                    v_gib,
                                                    (e_gib, is_number-IsNumber F py v_gib t_gib),
                                                  );
                                                  ts = (
                                                    v_ts,
                                                    (e_ts, is_number-IsNumber F py v_ts t_ts),
                                                  );
                                                })))))))))))))))))
