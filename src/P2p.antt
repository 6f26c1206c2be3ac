-- ===== src/P2p.antt =====
-- Package p2p: messages, their transport, and the set of connected peers.
pub mod Messages
pub mod Transport
pub mod Peers
