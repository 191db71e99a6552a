-- ===== src/Backend/Contract.antt =====
-- What an engine may expect of any backend.
use discovery.Base.{◌≡◌, ◌||◌, not, none, some, true, false}
use discovery.Core.Message
use discovery.Core.Envelope
use discovery.Core.Envelope.{Envelope}
use discovery.External.Time.{Timestamps}
use discovery.Backend.{Backend}

pub record BackendLaws {W T : Type 0} ⦃ts : Timestamps T⦄ (b : Backend W T) : Type 0 where
  -- A backend runs exactly after a start that returns true, and a second start changes nothing.
  pub start_running : (w : W) → b.is_running (b.start w).1 ≡ (b.start w).0
  pub start_again : (w : W) → b.is_running w ≡ true → b.start w ≡ (true, w)
  pub stop_running : (w : W) → b.is_running (b.stop w) ≡ false
  -- A stopped backend neither sends nor receives, and an envelope that cannot go out is refused.
  pub send_stopped : (e : Envelope T) (w : W) → b.is_running w ≡ false → b.send e w ≡ (false, w)
  pub send_refused :
      (e : Envelope T) (w : W)
      → (not (Envelope.is_valid e) || not (Envelope.has_destination e)) ≡ true
      → b.send e w ≡ (false, w)
  pub poll_stopped : (w : W) → b.is_running w ≡ false → b.poll w ≡ (none, w)
  -- What is polled is a valid message with a source.
  pub poll_envelope :
      (w : W) (e : Envelope T)
      → (b.poll w).0 ≡ some e
      → (Message.is_valid e.message ≡ true) × (Envelope.has_source e ≡ true)
  -- Sending, polling and reading the clock neither start nor stop.
  pub send_running : (e : Envelope T) (w : W) → b.is_running (b.send e w).1 ≡ b.is_running w
  pub poll_running : (w : W) → b.is_running (b.poll w).1 ≡ b.is_running w
  pub now_running : (w : W) → b.is_running (b.now w).1 ≡ b.is_running w
