-- ===== src/Client/Server.antt =====
-- include/softadastra/discovery/server/DiscoveryServer.hpp
use discovery.Base.{Option, Bool}
use discovery.Core.Envelope.{Envelope}
use discovery.Backend.{Backend}

module _ {W T : Type 0} (b : Backend W T) where
  unfoldable pub start : W → Bool × W
  start w = b.start w

  unfoldable pub stop : W → W
  stop w = b.stop w

  unfoldable pub is_running : W → Bool
  is_running w = b.is_running w

  unfoldable pub poll : W → Option (Envelope T) × W
  poll w = b.poll w
