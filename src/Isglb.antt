-- ===== src/Isglb.antt =====
-- The package pkg/isglb: the global balancer, which collects the status of every node and sends
-- back the status that the algorithm expects.
pub mod Service
pub mod Sender
pub mod Client
