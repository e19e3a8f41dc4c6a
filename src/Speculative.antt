-- ===== src/Speculative.antt =====
-- commonnet/speculative.py and the plain decoding of commonnet/client.py that it falls back to.
-- `Session` is the route with its cached session, `Verify` the answer of the final peer, `Plain` and
-- `Loop` the two token streams, `Agree` and its helpers the proofs that they are one stream.
pub mod Session
pub mod Verify
pub mod Plain
pub mod Loop
pub mod Follows
pub mod Round
pub mod Chain
pub mod Settled
pub mod Agree
mod Tests
