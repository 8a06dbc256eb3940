-- ===== src/Algorithms.antt =====
-- algorithms: what computes the wanted statuses.
pub mod Stupid
