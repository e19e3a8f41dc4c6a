-- ===== src/Mesh/Records/Shape/Genuine.antt =====
-- What `verify_record` accepts, and what it raises.
use common_network.Prelude.{
  ℕ, String, ◌≡◌, refl, sym, ap, ◌∙◌, inl, inr, Bool, true, false, ◌&&◌, ◌||◌, Option, none, some,
  List, arith, ◌==◌, text_eq, number_eq, length, Option-cases, by_test,
}
use common_network.Prelude.Result.{Result, ok, err, Gives, Gives->>=, Gives-guard, Gives-weaker}
use common_network.Net.Json.{
  Raised, record_error, overflow_error, protocol_error, key_error, Json, text, Fields, get,
}
use common_network.Net.Protocol.{Floats}
use common_network.Net.Chain.{Python}
use common_network.Mesh.Records.Shape.{check_shape}
use common_network.Mesh.Records.Shape.Required.{HasHugeSpeed, IsRaisedBy}
use common_network.Mesh.Records.Shape.Checked.{IsShaped, check_shape-Gives}
use common_network.Mesh.Records.Shape.Verify.{
  Keys, text_at, bytes_of, is_bound, is_unpinned, check_signature, caught, verify_body,
  verify_record,
}

-- The record is well formed, `peer` is the hash of its key of 32 bytes, the signature in its field
-- `sig` holds, and where it carries a pin or is reached without a host name, the pin is bound to the
-- key.
pub record IsGenuine (F : Floats) (py : Python) (keys : Keys F.Real) (j : Json F.Real)
    : Type 0 where
  pub fields : Fields F.Real
  pub shaped : IsShaped F py j fields
  pub key_text : String
  pub has_key : get "pub" fields ≡ some (text key_text)
  pub key : List ℕ
  pub decoded : keys.b64d key_text ≡ some key
  pub sized : length key ≡ 32
  pub named : get "peer" fields ≡ some (text (keys.peer_id key))
  pub sig_text : String
  pub has_sig : get "sig" fields ≡ some (text sig_text)
  pub signature : List ℕ
  pub decoded_sig : keys.b64d sig_text ≡ some signature
  pub signed : keys.signed_by key signature fields ≡ true
  pub bound : (is_unpinned keys fields || is_bound keys fields) ≡ true

abbrev pub IsAccepted : (F : Floats) → Python → Keys F.Real → Json F.Real → Bool → Type 0
IsAccepted F py keys j true = IsGenuine F py keys j
IsAccepted F py keys j false = Unit

-- The error is an `OverflowError`, of a speed that is no float.
abbrev pub IsUncaught : (F : Floats) → Json F.Real → Raised → Type 0
IsUncaught F j overflow_error = HasHugeSpeed F j
IsUncaught F j _ = ⊥

module _ (F : Floats) (py : Python) (keys : Keys F.Real) (j : Json F.Real) where
  abbrev E : Raised → Type 0
  E e = IsRaisedBy F j e

  text_at-Gives :
      (key : String) (fs : Fields F.Real)
      → Gives E (λ (s : String). get key fs ≡ some (text s)) (text_at keys key fs)
  unfolding text_at
  text_at-Gives key fs = at_option (get key fs)
    where
      at_option :
          (o : Option (Json F.Real))
          → Gives E
              (λ (s : String). o ≡ some (text s))
              (elim o [ some (text s) ↦ ok s | _ ↦ err (record_error "not a text") ])
      at_option none = tt
      at_option (some (text s)) = refl
      at_option (some _) = tt

  bytes_of-Gives :
      (s : String) → Gives E (λ (bytes : List ℕ). keys.b64d s ≡ some bytes) (bytes_of keys s)
  unfolding bytes_of
  bytes_of-Gives s = elim (Option-cases (keys.b64d s)) [
    | inl e ↦ rw (Gives, bytes_of, e) tt
    | inr (bytes, e) ↦ rw (Gives, bytes_of, e) e
  ]

  -- The signature in `sig` holds, and the pin is bound where there must be one.
  IsSigned : Fields F.Real → List ℕ → Option (Json F.Real) → Bool → Type 0
  IsSigned fs key o true =
      (sig_text : String) × (signature : List ℕ) × ((o ≡ some (text sig_text))
        × ((keys.b64d sig_text ≡ some signature)
            × ((keys.signed_by key signature fs ≡ true)
                × ((is_unpinned keys fs || is_bound keys fs) ≡ true))))
  IsSigned fs key o false = Unit

  IsSigned-test :
      (fs : Fields F.Real) (key signature : List ℕ) (s : String) (b : Bool)
      → keys.b64d s ≡ some signature
      → keys.signed_by key signature fs ≡ true
      → (is_unpinned keys fs || is_bound keys fs) ≡ b
      → IsSigned fs key (some (text s)) b
  unfolding IsSigned
  IsSigned-test fs key signature s true d h e = (s, signature, (refl, (d, (h, e))))
  IsSigned-test fs key signature s false d h e = tt

  check_signature-Gives :
      (fs : Fields F.Real) (key : List ℕ) (o : Option (Json F.Real))
      → Gives E (IsSigned fs key o) (check_signature keys fs key o)
  unfolding check_signature IsSigned
  check_signature-Gives fs key none = tt
  check_signature-Gives fs key (some (text s)) =
      Gives->>= E (λ (bytes : List ℕ). keys.b64d s ≡ some bytes) (IsSigned fs key (some (text s)))
        (bytes_of keys s) _ (bytes_of-Gives s)
        (λ (bytes : List ℕ) (d : keys.b64d s ≡ some bytes).
          Gives-guard E (IsSigned fs key (some (text s))) (keys.signed_by key bytes fs) _ _ tt
            (λ h. IsSigned-test fs key bytes s _ d h refl))
  check_signature-Gives fs key (some _) = tt

  accepted :
      (fs : Fields F.Real) (key_text peer : String) (key : List ℕ)
      → IsShaped F py j fs
      → get "pub" fs ≡ some (text key_text)
      → keys.b64d key_text ≡ some key
      → get "peer" fs ≡ some (text peer)
      → (length key == 32 && keys.peer_id key == peer) ≡ true
      → (b : Bool) → IsSigned fs key (get "sig" fs) b
      → IsAccepted F py keys j b
  unfolding IsSigned
  accepted fs key_text peer key v k d p t false z = tt
  accepted fs key_text peer key v k d p t true z = record {
    fields = fs;
    shaped = v;
    key_text = key_text;
    has_key = k;
    key = key;
    decoded = d;
    sized = (number_eq.agrees _ _).0 (ground arith);
    named =
        p
        ∙ ap (λ s. some (text s)) (sym ((text_eq.agrees (keys.peer_id key) peer).0 (ground arith)));
    sig_text = z.0;
    signature = z.1;
    has_sig = z.2.0;
    decoded_sig = z.2.1.0;
    signed = z.2.1.1.0;
    bound = z.2.1.1.1;
  }

  verify_body-Gives : Gives E (IsAccepted F py keys j) (verify_body F py keys j)
  unfolding verify_body
  verify_body-Gives =
      Gives->>= E (IsShaped F py j) (IsAccepted F py keys j) (check_shape F py j) _
        (check_shape-Gives F py j)
        (λ (fs : Fields F.Real) (v : IsShaped F py j fs).
          Gives->>= E _ (IsAccepted F py keys j) (text_at keys "pub" fs) _ (text_at-Gives "pub" fs)
            (λ (key_text : String) (k : get "pub" fs ≡ some (text key_text)).
              Gives->>= E _ (IsAccepted F py keys j) (bytes_of keys key_text) _
                (bytes_of-Gives key_text)
                (λ (key : List ℕ) (d : keys.b64d key_text ≡ some key).
                  Gives->>= E _ (IsAccepted F py keys j) (text_at keys "peer" fs) _
                    (text_at-Gives "peer" fs)
                    (λ (peer : String) (p : get "peer" fs ≡ some (text peer)).
                      by_test (Gives E (IsAccepted F py keys j))
                        (length key == 32 && keys.peer_id key == peer) _ (ok false)
                        (λ t.
                          Gives-weaker E (IsSigned fs key (get "sig" fs)) (IsAccepted F py keys j)
                            (check_signature keys fs key (get "sig" fs))
                            (check_signature-Gives fs key (get "sig" fs))
                            (accepted fs key_text peer key v k d p t))
                        (λ t. tt)))))

  caught-Gives :
      (m : Result Raised Bool)
      → Gives E (IsAccepted F py keys j) m
      → Gives (IsUncaught F j) (IsAccepted F py keys j) (caught m)
  unfolding caught
  caught-Gives (ok b) h = h
  caught-Gives (err (record_error m)) h = tt
  caught-Gives (err (protocol_error m)) h = tt
  caught-Gives (err (key_error k)) h = h
  caught-Gives (err overflow_error) h = h

  -- A record that is accepted is genuine. Its version is 1; network, peer, pub, backend, state and
  -- token are texts; the state is one of the three; the url is null or an http(s) one of at most 512
  -- characters; the token has at most 256; the window is null or a range that is not empty; seq is a
  -- natural number; gib and ts are numbers; dht, if there, is a port; speed, if there, is finite and
  -- not negative; fp and fpsig come together, fp is a fingerprint and fpsig has at most 128
  -- characters. The peer is named by the hash of the 32 bytes that pub decodes to, what sig decodes
  -- to is a signature of the record by that key, and the pin is bound to the key where the record
  -- must have one. Nothing is raised but an `OverflowError`, and that only of a record whose speed is
  -- an integer that is no float.
  pub verify_record-Gives :
      Gives (IsUncaught F j) (IsAccepted F py keys j) (verify_record F py keys j)
  unfolding verify_record
  verify_record-Gives = caught-Gives (verify_body F py keys j) verify_body-Gives
