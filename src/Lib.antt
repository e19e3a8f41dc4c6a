-- ===== src/Lib.antt =====
-- Verification library of common-network, a layer network of machines that serve a large model
-- together.
--
-- Speculative models commonnet/speculative.py (`speculative_stream`, `_verified_prefix`), plain
-- greedy decoding of commonnet/client.py (`generate_stream`) and the session rules of
-- commonnet/block.py (`forward`, `truncate`). The model's layers are a parameter, `greedy`, from
-- contexts to tokens; the drafter is a parameter with a state of its own. Both loops take
-- `max_new_tokens` rounds of fuel, which are enough since each round yields a token. Where the final
-- peer checks the drafts, the limits that `chain_step` of commonnet/net/transport.py puts on the ids
-- and on the drafts of a step are part of the speculative loop; plain decoding is modelled for prompts
-- that the route takes. The roll-back of the speculative loop is made at once, and a block with other
-- layers than attention refuses it; the sessions of Net are of blocks with attention layers only. Not
-- modelled: sampling at a temperature, clocks, and the calls that open and close a session.
--
-- commonnet/plan.py is in the modules under Plan: the functions `plan_split` and
-- `plan_hybrid_split`. Byte counts are natural numbers; the floats of the objective "balanced" are
-- a parameter.
--
-- Dht is commonnet/dht: Ids for ids.py, Table for every method of `RoutingTable` in table.py, and
-- Store for every method of `ValueStore` in store.py. Positions are numbers below 2^256 and the
-- hashes that derive them are not modelled. The lists of buckets are functions of the index, times
-- are natural numbers and the lock is left out: each method is one step.
--
-- Mesh is commonnet/mesh: Records for the fields of a signed record that its users read,
-- Records/Shape for `check_shape` and `verify_record` over the values of a JSON object, and
-- Identity for the sequence numbers it is signed with (records.py), Gossip for the peer table of
-- gossip.py, Manifest for manifest.py without the JSON form, Cover for the two checks that windows
-- cover the model, `check_cover` of assign.py and `check_route` of commonnet/client.py, and
-- Placement for placement.py (`best_route` is in Placement/Route), where memory is counted in
-- natural numbers and scores are fractions that are compared exactly. Assign is the rest of
-- assign.py: Match for `_match`, whose recursion takes one call more than there are peers as fuel,
-- Assign for `_tilings` and `_assign`, and Plans for `plan`. For the users of records, that one is
-- genuine is a parameter, `verify_record`; the clock is an argument. Sample is test data.
--
-- Net is commonnet/net: Server for the sessions of `BlockServer` in server.py, and Transport for the
-- failover of `HttpTransport` in transport.py, for one endpoint and one session. A piece stands for its
-- positions. What happens to each call, also a lost reply and a server that starts anew, is read from a
-- list; `_send` takes one round more than the list is long as fuel, which is enough since every failure
-- uses up an entry. Deferred cuts and chain sessions are not modelled.
-- Protocol is every message of protocol.py: an encoder or a decoder works on the values that
-- `json.loads` gives (Net/Json) and returns a value or raises. The floats and base64 are parameters
-- (`Floats`, `Base64`), the text of JSON itself is not modelled, and an encoder's positions, lengths
-- and token ids are natural numbers.
-- Chain is chain.py: the checks of a route (`check_hop`, with `check_token` of auth.py and
-- `normalize_fingerprint` of secure.py), `decode_request` and `check_reply`. Python's `urlsplit`,
-- `ip_address`, `strip`, `lower` and `isspace` are parameters (`Python`), and so is the decompression of
-- activations (activation_codec.py, which is numpy). `run`, which calls the next peer, is not modelled.
--
-- Hub is `plan_segments` of commonnet/hub.py, and Presets is commonnet/presets.py.
--
-- Directory is gateway/app/directory.py, the rendezvous: `announce` with its rate limit and its
-- caps, and the listing. The reason that `verify` gives for a record is an argument; the addresses
-- of callers, the TLS probe and the dashboard are not modelled.
pub mod Prelude
pub mod Plan
pub mod Speculative
pub mod Dht
pub mod Mesh
pub mod Net
pub mod Hub
pub mod Presets
pub mod Directory
