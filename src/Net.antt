-- ===== src/Net.antt =====
-- commonnet/net: the wire format, the sessions of a block server, and the transport that moves a session
-- between servers.
pub mod Json
pub mod Protocol
pub mod Chain
pub mod Server
pub mod Transport
