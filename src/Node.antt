-- ===== src/Node.antt =====
-- The crate node: the encrypted tunnel.
pub mod Error
pub mod Replay
pub mod CryptoUtils
pub mod SeqCounters
pub mod RecordLayer
pub mod RateLimiter
pub mod BufferPool
pub mod FileTransfer
pub mod Externals
pub mod Tunnel
pub mod Padding
pub mod Tun
pub mod Wire
pub mod Dns
pub mod Tls
pub mod TrafficShaping
pub mod Example
mod Tests
