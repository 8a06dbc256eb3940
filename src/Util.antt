-- ===== src/Util.antt =====
-- The package util: sets and maps, watchdogs, executors and the reconnecting client.
pub mod Set
pub mod SetMap
pub mod Items
pub mod Watchdog
pub mod Timer
pub mod Client
pub mod BlockedDoor
pub mod Lock
