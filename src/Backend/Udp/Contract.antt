-- ===== src/Backend/Udp/Contract.antt =====
-- The UDP backend keeps the contract of backends, on any socket.
use discovery.Base.{◌≡◌, refl, some, Option-cases, true, inl, inr, not, is_empty, arith, else_some}
use discovery.External.Serializer.{Serializer}
use discovery.External.Time.{Timestamps, Durations}
use discovery.Core.Datagram
use discovery.Core.Datagram.{Datagram}
use discovery.Core.Message
use discovery.Core.Message.{Message}
use discovery.Core.Envelope
use discovery.Core.Envelope.{Envelope}
use discovery.Encoding.Decode
use discovery.Encoding.Decode.{decode_datagram}
use discovery.Encoding.Wire.{decode-Reads}
use discovery.Platform.{UdpSockets}
use discovery.Backend.Contract.{BackendLaws}
use discovery.Backend.Udp
use discovery.Backend.Udp.{Udp, udp_backend}

module _ (c : Serializer) where
  -- The decoder returns valid messages only.
  decode_datagram_valid :
      (d : Datagram) (m : Message) → decode_datagram c d ≡ some m → Message.is_valid m ≡ true
  unfolding decode_datagram Decode.decode_buffer
  decode_datagram_valid d m h =
      let (ok₁, h₁) = else_some (not (Datagram.is_valid d)) _ h in
      let (ok₂, h₂) = else_some (is_empty d.payload) _ h₁ in (decode-Reads c d.payload m h₂).0.valid

module _ {S W D : Type 0} (u : UdpSockets S W D) where
  configure_socket_running : (b : Udp S W D) → (Udp.configure_socket u b).1.running ≡ b.running
  unfolding Udp.configure_socket
  configure_socket_running b = ground arith

module _ {S W D : Type 0} ⦃ds : Durations D⦄ (u : UdpSockets S W D) where
  start_running : (b : Udp S W D) → (Udp.start u b).1.running ≡ (Udp.start u b).0
  unfolding Udp.start Udp.close_socket
  start_running b = ground (
    arith,
    configure_socket_running u (record b {
      socket = (u.open_socket b.socket b.system).1;
      system = (u.open_socket b.socket b.system).2;
    }),
  )

module _ {S W D T : Type 0} ⦃ts : Timestamps T⦄ ⦃ds : Durations D⦄ (c : Serializer)
    (u : UdpSockets S W D) (clock : W → T × W) where
  poll_envelope :
      (b : Udp S W D) (e : Envelope T)
      → (Udp.poll c u clock b).0 ≡ some e
      → (Message.is_valid e.message ≡ true) × (Envelope.has_source e ≡ true)
  unfolding Udp.poll Envelope.make Envelope.has_source Datagram.is_valid
  poll_envelope b e h =
      let (datagram, w₁) = u.recv_datagram b.config.max_datagram_size b.socket b.system in
      elim (Option-cases (decode_datagram c datagram)) [
        | inl bad ↦ ground (arith, h, bad)
        | inr (m, good) ↦
            let valid : Message.is_valid m ≡ true = decode_datagram_valid c datagram m good in
            ground (arith, h, good, valid)
      ]

  -- On any socket, serializer and clock, the UDP backend keeps the contract of backends. A start
  -- returns true exactly if the backend then runs, a start while it runs changes nothing, and stop
  -- stops it. While it does not run, send returns false, poll returns nothing, and both change
  -- nothing; so does send of an envelope that is invalid or has no destination. Whatever poll
  -- returns is a valid message with a source, and send, poll and the clock leave it running or
  -- not.
  pub udp_backend-BackendLaws : BackendLaws (udp_backend c u clock)
  unfolding udp_backend Udp.is_running Udp.start Udp.stop Udp.close_socket Udp.send Udp.poll Udp.now
  udp_backend-BackendLaws = record {
    start_running = start_running u;
    start_again = λ b on. ground arith;
    stop_running = λ b. refl;
    send_stopped = λ e b off. ground arith;
    send_refused = λ e b bad. ground arith;
    poll_stopped = λ b off. ground arith;
    poll_envelope = poll_envelope;
    send_running = λ e b. ground arith;
    poll_running = λ b. ground arith;
    now_running = λ b. refl;
  }
