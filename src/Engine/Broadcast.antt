-- ===== src/Engine/Broadcast.antt =====
-- What an engine over a UDP backend hands its socket when it announces itself.
use discovery.Base.{◌≡◌, inl, true, false, ◌==◌, is_empty, length, arith, ℕ, if◌then◌else◌}
use discovery.Base.Text.{Bytes}
use discovery.External.Serializer.{Serializer, SerializerLaws}
use discovery.External.Time.{Timestamps, Durations}
use discovery.External.Transport.{PeerInfos}
use discovery.Core.Config
use discovery.Core.Config.{Config}
use discovery.Core.Context
use discovery.Core.Context.{Context, ok}
use discovery.Core.Envelope
use discovery.Core.Envelope.{Envelope}
use discovery.Core.Message
use discovery.Core.Message.{Message}
use discovery.Encoding.Encode.{encode_message}
use discovery.Platform.{UdpSockets}
use discovery.Backend.{Backend}
use discovery.Backend.Udp
use discovery.Backend.Udp.{Udp, udp_backend}
use discovery.Backend.Udp.Delivery.{carrier, send_carrier}
use discovery.Client
use discovery.Engine
use discovery.Engine.{Engine}
use discovery.Engine.Traffic
use discovery.Backend.Udp.Contract.{udp_backend-BackendLaws}
use discovery.Engine.Upheld.{make_announce_message_upheld}
use discovery.Engine.Uptime.{running-Upholds}
use discovery.Engine.Hearing.{config_checked_valid, announce_fields, spoken_valid}

module _ {S W T P D : Type 0} ⦃ts : Timestamps T⦄ ⦃ds : Durations D⦄ {s : Serializer}
    (laws : SerializerLaws s) (u : UdpSockets S W D) (clock : W → T × W) where
  -- A client over a running UDP backend sends a valid message in one datagram.
  client_send-carrier :
      (m : Message) (host : Bytes) (port : ℕ) (e : Engine (Udp S W D) T P D)
      → e.world.running ≡ true
      → Message.is_valid m ≡ true
      → is_empty host ≡ false
      → (port == 0) ≡ false
      → let c : Backend (Udp S W D) T = udp_backend s u clock in
        let (envelope, e₂) = Engine.make_outbound_envelope c m host port e in
        let v = (c.now e₂.world).1 in
        ts.is_valid envelope.timestamp ≡ true
        → let (n, w) = u.send_datagram (carrier s m host port) v.socket v.system in
          Engine.client_send c envelope e₂
          ≡ (n == length (encode_message s m), record e₂ { world = record v { system = w } })
  unfolding udp_backend Engine.client_send Client.send Engine.make_outbound_envelope
      Engine.read_clock Envelope.make_outbound Envelope.is_valid Envelope.has_destination
      Envelope.make Udp.now Envelope.mark_attempt
  client_send-carrier m host port e on valid named open_port timed =
      let (t, w₁) = clock e.world.system in
      let (t', w₂) = clock w₁ in
      let v : Udp S W D = record e.world { system = w₂ } in
      let marked : Envelope T = Envelope.mark_attempt t' (Envelope.make_outbound t m host port) in
      let sent =
        send_carrier laws u clock u clock marked v on (ground (arith, valid, timed))
          (ground (arith, named, open_port)) in
      ground (arith, valid, timed, named, open_port, sent)

module _ {S W T P D : Type 0} ⦃ts : Timestamps T⦄ ⦃ds : Durations D⦄ ⦃infos : PeerInfos P⦄
    {s : Serializer} (laws : SerializerLaws s) (u : UdpSockets S W D) (clock : W → T × W) where
  announcing_running :
      (e : Engine (Udp S W D) T P D)
      → Engine.is_running (udp_backend s u clock) e ≡ true
      → (Traffic.make_announce_message s (udp_backend s u clock) e).1.world.running ≡ true
  unfolding udp_backend Udp.is_running Engine.is_running
  announcing_running e on =
      make_announce_message_upheld s (running-Upholds s (udp_backend-BackendLaws s u clock) true) e
        (ground (arith, on))

  -- With a serializer that keeps its laws, an engine that runs over a UDP backend, on any socket,
  -- with a valid configuration and, for its envelope, a valid time: of its socket announce_now uses
  -- one call of send_datagram, with the encoded announcement message and the broadcast host and port
  -- of the configuration. It returns whether all of it went out, and leaves the engine as making the
  -- message left it, but for the backend's system, which is that after two readings of the clock and
  -- the datagram, and, if all of it went out, after a third reading, which becomes last_announce_at.
  pub announce_now-carrier :
      (config : Config D) (e : Engine (Udp S W D) T P D)
      → Context.config_checked e.context ≡ ok config
      → Engine.is_running (udp_backend s u clock) e ≡ true
      → (let c = udp_backend s u clock in
          let (m, e₁) = Traffic.make_announce_message s c e in
          ts.is_valid (c.now e₁.world).0 ≡ true)
      → let c = udp_backend s u clock in
        let (m, e₁) = Traffic.make_announce_message s c e in
        let v = (c.now (c.now e₁.world).1).1 in
        let (n, w) =
          u.send_datagram
            (carrier s m config.broadcast_host config.broadcast_port)
            v.socket
            v.system in
        let (t, v') = c.now (record v { system = w }) in
        Traffic.announce_now s c e ≡ (
          if n == length (encode_message s m)
          then (true, record e₁ { world = v'; last_announce_at = t })
          else (false, record e₁ { world = record v { system = w } }))
  unfolding Traffic.announce_now Engine.make_outbound_envelope Engine.read_clock
      Envelope.make_outbound Envelope.make
  announce_now-carrier config e checked on timed =
      let c : Backend (Udp S W D) T = udp_backend s u clock in
      let (m, e₁) = Traffic.make_announce_message s c e in
      let valid : Config.is_valid config ≡ true = config_checked_valid e.context config checked in
      let (type, from, payload) = announce_fields s c e config checked in
      let sent =
        client_send-carrier laws u clock m config.broadcast_host config.broadcast_port e₁
          (announcing_running e on) (spoken_valid config m valid (inl type) from)
          (unfold Config.is_valid in ground (arith, valid))
          (unfold Config.is_valid in ground (arith, valid)) timed in
      rw (Traffic.announce_now, on, checked) (ground (arith, sent))
