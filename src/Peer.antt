-- ===== src/Peer.antt =====
-- include/softadastra/discovery/peer: what is known of each peer, and the registry of all of them.
pub mod DiscoveredPeer
pub mod Registry
pub mod Published
