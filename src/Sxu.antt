-- ===== src/Sxu.antt =====
-- pkg/sxu: the syncer of an SFU and the routers that it commands.
pub mod Router
pub mod Syncer
pub mod Bridge
pub mod Peer
pub mod Rtc
pub mod Receivers
pub mod Room
pub mod RoomClient
