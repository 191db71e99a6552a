-- ===== src/External/Transport.antt =====
-- `softadastra::transport::core::PeerInfo`, which the repository only builds and reads.
use discovery.Base.{ℕ, Bool}
use discovery.Base.Text.{Bytes}

pub record PeerInfos (P : Type 0) : Type 0 where
  -- `PeerInfo{node_id, host, port}`
  pub make : Bytes → Bytes → ℕ → P
  pub is_valid : P → Bool
  pub node_id : P → Bytes
  pub host : P → Bytes
  pub port : P → ℕ

-- `softadastra::transport::engine::TransportEngine`, whose state is part of the world. The value
-- that `connect_peer` returns is not used.
pub record Transport (W P : Type 0) : Type 0 where
  pub is_running : W → Bool
  -- peers().contains(node_id)
  pub contains : Bytes → W → Bool
  pub connect_peer : P → W → W
