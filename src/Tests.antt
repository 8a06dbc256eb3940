-- ===== src/Tests.antt =====
-- Concrete runs of the model, and the theorems applied at concrete inputs.
mod Sets
mod Services
mod Syncers
mod Doors
mod Nodes
mod Media
mod Signals
mod Clients
