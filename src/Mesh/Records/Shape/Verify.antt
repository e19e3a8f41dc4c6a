-- ===== src/Mesh/Records/Shape/Verify.antt =====
-- commonnet/mesh/records.py: `verify_record` and `is_direct_url`. The hash of a key, the signatures
-- and base64 are parameters.
use common_network.Prelude.{
  ℕ, String, Bool, false, ◌&&◌, ◌||◌, not, Option, none, some, List, if◌then◌else◌, ◌==◌, text_eq,
  number_eq, length,
}
use common_network.Prelude.Result.{Result, ok, err, ◌>>=◌, ◌>>◌, guard}
use common_network.Net.Json.{
  Raised, record_error, overflow_error, protocol_error, key_error, Json, text, Fields, get, has,
}
use common_network.Net.Protocol.{Floats}
use common_network.Net.Chain.{Python}
use common_network.Mesh.Records.Shape.{check_shape, starts_with}

-- `urlsplit(url).hostname or ""` where it raises no `ValueError`, whether a text is an address,
-- `_b64d`, `peer_id`, that a signature of a record holds, and `secure.verify_binding`.
pub record Keys (Real : Type 0) : Type 0 where
  pub host_of : String → Option String
  pub is_address : String → Bool
  pub b64d : String → Option (List ℕ)
  pub peer_id : List ℕ → String
  pub signed_by : List ℕ → List ℕ → Fields Real → Bool
  pub verify_binding : String → String → String → Bool

module _ {Real : Type 0} (keys : Keys Real) where
  unfoldable pub is_direct_url : Json Real → Bool
  is_direct_url (text url) =
      starts_with "https://" url
      && elim (keys.host_of url) [ none ↦ false | some host ↦ keys.is_address host ]
  is_direct_url _ = false

  -- A text, which `check_shape` has seen; a `TypeError` is caught like a `RecordError`.
  unfoldable pub text_at : String → Fields Real → Result Raised String
  text_at key fs = elim (get key fs) [ some (text s) ↦ ok s | _ ↦ err (record_error "not a text") ]

  -- `_b64d`, whose `ValueError` is caught too
  unfoldable pub bytes_of : String → Result Raised (List ℕ)
  bytes_of s = elim (keys.b64d s) [ none ↦ err (record_error "not base64") | some bytes ↦ ok bytes ]

  -- The pin of a peer that is reached without a host name is bound to its identity.
  unfoldable pub is_bound : Fields Real → Bool
  is_bound fs = elim (get "pub" fs) [
    | some (text pub_key) ↦ elim (get "fp" fs) [
      | some (text fp) ↦ elim (get "fpsig" fs) [
        | some (text fpsig) ↦ keys.verify_binding pub_key fp fpsig
        | _ ↦ false
      ]
      | _ ↦ false
    ]
    | _ ↦ false
  ]

  unfoldable pub is_unpinned : Fields Real → Bool
  is_unpinned fs =
      not (has "fp" fs || elim (get "url" fs) [ none ↦ false | some url ↦ is_direct_url url ])

  -- The signature of the record, and the binding of its pin.
  unfoldable pub check_signature : Fields Real → List ℕ → Option (Json Real) → Result Raised Bool
  check_signature fs pub_key (some (text sig)) = do
    bytes ← bytes_of sig
    guard (keys.signed_by pub_key bytes fs) (record_error "invalid signature")
    ok (is_unpinned fs || is_bound fs)
  check_signature fs pub_key _ = ok false

unfoldable pub caught : Result Raised Bool → Result Raised Bool
caught (ok b) = ok b
caught (err (record_error m)) = ok false
caught (err (protocol_error m)) = ok false
caught (err (key_error k)) = err (key_error k)
caught (err overflow_error) = err overflow_error

module _ (F : Floats) (py : Python) (keys : Keys F.Real) where
  -- The body of the `try`.
  unfoldable pub verify_body : Json F.Real → Result Raised Bool
  verify_body j = do
    fs ← check_shape F py j
    pub_text ← text_at keys "pub" fs
    pub_key ← bytes_of keys pub_text
    peer ← text_at keys "peer" fs
    (if length pub_key == 32 && keys.peer_id pub_key == peer
        then check_signature keys fs pub_key (get "sig" fs)
        else ok false)

  -- Every error is caught but those of a class that the `except` does not name.
  unfoldable pub verify_record : Json F.Real → Result Raised Bool
  verify_record j = caught (verify_body j)
