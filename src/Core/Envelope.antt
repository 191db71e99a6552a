-- ===== src/Core/Envelope.antt =====
-- include/softadastra/discovery/core/DiscoveryEnvelope.hpp
use discovery.Base.{ℕ, ◌+◌, ◌%◌, ◌==◌, [], Bool, not, ◌&&◌, is_empty, ltb}
use discovery.Base.Text.{Bytes}
use discovery.External.Time.{Timestamps}
use discovery.Core.Message
use discovery.Core.Message.{Message}

pub record Envelope (T : Type 0) : Type 0 where
  pub message : Message
  pub from_host : Bytes
  pub from_port : ℕ
  pub to_host : Bytes
  pub to_port : ℕ
  pub timestamp : T
  pub retry_count : ℕ
  pub last_attempt_at : T

module _ {T : Type 0} where
  unfoldable pub has_source : Envelope T → Bool
  has_source e = not (is_empty e.from_host) && not (e.from_port == 0)

  unfoldable pub has_destination : Envelope T → Bool
  has_destination e = not (is_empty e.to_host) && not (e.to_port == 0)

  unfoldable pub attempted : Envelope T → Bool
  attempted e = ltb 0 e.retry_count

  -- The retry count is a uint32.
  unfoldable pub mark_attempt : T → Envelope T → Envelope T
  mark_attempt now e = record e {
    retry_count = (e.retry_count + 1) % 4294967296;
    last_attempt_at = now;
  }

module _ {T : Type 0} ⦃ts : Timestamps T⦄ where
  -- DiscoveryEnvelope(message), at the time `now`.
  unfoldable pub make : T → Message → Envelope T
  make now message = record {
    message = message;
    from_host = [];
    from_port = 0;
    to_host = [];
    to_port = 0;
    timestamp = now;
    retry_count = 0;
    last_attempt_at = ts.unset;
  }

  -- DiscoveryEnvelope(message, host, port), at the time `now`.
  unfoldable pub make_outbound : T → Message → Bytes → ℕ → Envelope T
  unfolding make
  make_outbound now message host port = record (make now message) { to_host = host; to_port = port }

  unfoldable pub is_valid : Envelope T → Bool
  is_valid e = Message.is_valid e.message && ts.is_valid e.timestamp

  unfoldable pub clear : Envelope T → Envelope T
  unfolding make
  clear e = make ts.unset (Message.clear e.message)
