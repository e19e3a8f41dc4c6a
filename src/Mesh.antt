-- ===== src/Mesh.antt =====
-- commonnet/mesh: the signed records of peers, and the table in which peers gossip them.
pub mod Records
pub mod Identity
pub mod Gossip
pub mod Manifest
pub mod Cover
pub mod Sample
pub mod Placement
pub mod Assign
