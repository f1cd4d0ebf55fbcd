-- ===== src/P2p.antt =====
-- src/p2p: the peers and the messages between them.
pub mod Address
pub mod State
pub mod Peer
pub mod Message
pub mod Peers
pub mod Framing
pub mod Network
mod Samples
mod Tests
