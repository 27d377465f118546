-- ===== src/Cli.antt =====
-- The command line: the two sides of a file transfer between peers.
pub mod Receive
pub mod Send
pub mod Upload
pub mod Download
pub mod Vpn
pub mod Main
mod Tests
