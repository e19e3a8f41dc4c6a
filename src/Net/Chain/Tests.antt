-- ===== src/Net/Chain/Tests.antt =====
-- A request over two peers, a request whose route has a gap, and the theorems there.
use common_network.Prelude.{
  ℕ, String, ◌≡◌, refl, Bool, true, false, Option, none, some, [], ◌∷◌, arith, if◌then◌else◌, ◌==◌,
  text_eq, number_eq,
}
use common_network.Prelude.Text.{text_length}
use common_network.Prelude.Result.{Result, ok, err}
use common_network.Net.Json.{
  Raised, protocol_error, Json, int, text, arr, obj, nil, cons, end, field,
}
use common_network.Net.Protocol.{refused, fields_of, check_layers}
use common_network.Net.Protocol.Tensors.{Tensor}
use common_network.Net.Protocol.Examples.{whole, unary}
use common_network.Net.Chain
use common_network.Net.Chain.{Python, UrlParts, Hop}
use common_network.Net.Chain.Request.{decode_request}
use common_network.Net.Chain.Request
use common_network.Net.Chain.Reply.{check_reply, answer_reply}
use common_network.Net.Chain.Reply.Answered.{check_reply-final_answer}
use common_network.Speculative.Verify.{Answer, final_answer}
use common_network.Speculative.Session as Session

-- Two origins, the first a host name and the second a numeric address.
abbrev origin_of : String → UrlParts
origin_of host = record {
  scheme = "https";
  hostname = some host;
  username = none;
  password = none;
  path = "";
  query = "";
  fragment = "";
  port = none;
}

abbrev split_known : String → Option UrlParts
split_known url =
    if url == "https://one.example"
    then some (origin_of "one.example")
    else if url == "https://8.8.8.8"
    then some (origin_of "8.8.8.8")
    else none

abbrev known_address : String → Option Bool
known_address host = if host == "8.8.8.8" then some true else none

abbrev plain : Python
plain = record {
  urlsplit = split_known;
  ip_address = known_address;
  is_space = λ c. false;
  strip = λ s. s;
  lower = λ s. s;
}

-- Nothing is compressed.
abbrev no_codec : String → Json (Option ℕ) → Result Raised Tensor
no_codec codec j = refused "activation is not compressed"

abbrev hop_to : String → ℕ → ℕ → Json (Option ℕ)
hop_to url start stop =
    obj (field "url" (text url) (field "layers" (arr (cons (int start) (cons (int stop) nil))) end))

-- Ids for layers 0 to 4, which go on to a peer whose layers begin at `start`.
abbrev over : ℕ → Json (Option ℕ)
over start = obj (
    field "id" (text "s-1") (
      field "start_pos" (int 0) (
        field "layers" (arr (cons (int 0) (cons (int 4) nil))) (
          field "route" (arr (cons (hop_to "https://one.example" start 8) nil))
            (field "which" (text "last") (field "ids" (arr (cons (int 5) nil)) end))))))

gap_is_refused :
    decode_request whole unary no_codec plain false (over 5)
    ≡ err (protocol_error "chain route must advance through contiguous, distinct peers")
unfolding decode_request check_layers Request.check_route Request.check_hops Request.is_linked
    Chain.check_hop fields_of Chain.check_url text_length Chain.split_url Chain.is_origin
    Chain.address_of Chain.check_hop_token Chain.check_hop_pin
gap_is_refused = refl

-- A numeric address without a pin is refused.
unpinned_is_refused :
    Chain.check_hop plain false (hop_to "https://8.8.8.8" 4 8)
    ≡ err (protocol_error "direct chain peers require a certificate pin")
unfolding Chain.check_hop fields_of Chain.check_url text_length Chain.split_url Chain.is_origin
    Chain.address_of Chain.check_hop_token Chain.check_hop_pin
unpinned_is_refused = refl

check_reply-final_answer_example :
    (a : Answer) × ((final_answer (3 ∷ 4 ∷ []) (3 ∷ 6 ∷ 7 ∷ []) ≡ Session.ok a)
      × (check_reply {Real = Option ℕ} (obj (answer_reply a))
          ≡ ok (record {
            ids = a.ids;
            verified = some (record { accepted = a.accepted; next = a.next });
          })))
check_reply-final_answer_example =
    check_reply-final_answer (Option ℕ) (3 ∷ 4 ∷ []) (3 ∷ 6 ∷ 7 ∷ [])
      (omega arith, (omega arith, (omega arith, tt))) (omega arith) (omega arith)
      (omega arith, (omega arith, (omega arith, tt)))
