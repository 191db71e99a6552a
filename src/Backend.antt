-- ===== src/Backend.antt =====
-- include/softadastra/discovery/backend/IDiscoveryBackend.hpp: what an engine asks of a backend.
-- The backend's state, the clock and the network are a world of the caller's choice.
pub mod Contract
pub mod Udp
use discovery.Base.{Option, Bool}
use discovery.Core.Envelope.{Envelope}

pub record Backend (W T : Type 0) : Type 0 where
  pub start : W → Bool × W
  pub stop : W → W
  pub is_running : W → Bool
  pub send : Envelope T → W → Bool × W
  pub poll : W → Option (Envelope T) × W
  -- `Timestamp::now()`
  pub now : W → T × W
