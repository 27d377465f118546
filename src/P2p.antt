-- ===== src/P2p.antt =====
-- The crate p2p: peers, their keys, and the back-off of addresses that fail.
pub mod Backoff
pub mod Settings
pub mod Peers
pub mod Metrics
pub mod Swarm
pub mod Files
pub mod Startup
pub mod Rotation
mod Tests
pub mod Packets
pub mod Forwarder
