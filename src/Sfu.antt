-- ===== src/Sfu.antt =====
-- pkg/sfu: the signalling of an SFU, on the side of the service and on that of its clients.
pub mod Messages
pub mod Replies
pub mod Subscribe
pub mod Signal
pub mod Requests
pub mod Tracked
pub mod Candidates
pub mod Connections
