-- ===== src/Islb.antt =====
-- pkg/islb: the nodes that know each other.
pub mod Node
pub mod Registry
