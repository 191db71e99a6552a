-- ===== src/Client.antt =====
-- include/softadastra/discovery/client/DiscoveryClient.hpp and server/DiscoveryServer.hpp: thin
-- wrappers of a backend. The client's calls return whether the backend sent, and the world after.
use discovery.Base.{ℕ, ◌==◌, Option, Bool, false, not, ◌||◌, is_empty, if◌then◌else◌}
use discovery.Base.Text.{Bytes}
use discovery.External.Time.{Timestamps}
use discovery.Core.Message
use discovery.Core.Message.{Message}
use discovery.Core.Envelope
use discovery.Core.Envelope.{Envelope}
use discovery.Backend.{Backend}
pub mod Server

module _ {W T : Type 0} ⦃ts : Timestamps T⦄ (b : Backend W T) where
  unfoldable pub send : Envelope T → W → Bool × W
  send e w =
      if not (Envelope.is_valid e) || not (Envelope.has_destination e)
      then (false, w)
      else let (t, w') = b.now w in b.send (Envelope.mark_attempt t e) w'

  unfoldable pub send_to : Bytes → ℕ → Message → W → Bool × W
  send_to host port message w =
      if is_empty host || port == 0 || not (Message.is_valid message)
      then (false, w)
      else let (t, w') = b.now w in send (Envelope.make_outbound t message host port) w'

  unfoldable pub send_announce : Bytes → ℕ → Bytes → Bytes → W → Bool × W
  unfolding send_to
  send_announce host port from payload = send_to host port (Message.announce from payload)

  unfoldable pub send_probe : Bytes → ℕ → Bytes → W → Bool × W
  unfolding send_to
  send_probe host port from = send_to host port (Message.probe from)

  unfoldable pub send_reply : Bytes → ℕ → Bytes → Bytes → W → Bool × W
  unfolding send_to
  send_reply host port from payload = send_to host port (Message.reply from payload)

  unfoldable pub is_running : W → Bool
  is_running w = b.is_running w
