-- ===== src/Dht.antt =====
-- commonnet/dht: node positions, the routing table, and the store of records.
pub mod Ids
pub mod Table
pub mod Store
