-- ===== src/Engine/OverUdp.antt =====
-- An engine over a UDP backend hears another engine's announcement in a datagram.
use discovery.Base.{
  ◌≡◌, ◌≢◌, refl, ap, sym, ◌∙◌, Option, some, true, false, ◌==◌, is_empty, arith, ℕ, inl,
}
use discovery.Base.Text.{Bytes}
use discovery.External.Serializer.{Serializer, SerializerLaws}
use discovery.External.Time.{Timestamps, Durations, TimestampLaws}
use discovery.External.Transport.{PeerInfos}
use discovery.Types.Status.{Status}
use discovery.Core.Config.{Config}
use discovery.Core.Context
use discovery.Core.Context.{Context, ok}
use discovery.Core.Message
use discovery.Core.Message.{Message}
use discovery.Core.Envelope
use discovery.Core.Envelope.{Envelope}
use discovery.Encoding.Wire.{FitsMessage}
use discovery.Platform.{UdpSockets}
use discovery.Backend.{Backend}
use discovery.Backend.Udp
use discovery.Backend.Udp.{Udp, udp_backend}
use discovery.Backend.Udp.Contract.{udp_backend-BackendLaws}
use discovery.Backend.Udp.Delivery.{carrier, inbound, poll_carrier}
use discovery.Client.Server
use discovery.Engine
use discovery.Engine.{Engine}
use discovery.Engine.Traffic
use discovery.Engine.AnnouncementWire.{FitsAnnouncement}
use discovery.Engine.Fixed.{tended, fixed-tended}
use discovery.Engine.Uptime.{up-tended}
use discovery.Engine.Hearing.{
  own_announcement, Learns, config_checked_valid, announce_fields, spoken_valid, announcement_heard,
}

module _ {W T P D : Type 0} ⦃ts : Timestamps T⦄ ⦃ds : Durations D⦄ ⦃infos : PeerInfos P⦄
    (s : Serializer) (b : Backend W T) where
  -- The engine once its server has been polled.
  abbrev pub polled : Engine W T P D → Engine W T P D
  polled e = let e₁ = tended s b e in record e₁ { world = (b.poll e₁.world).1 }

  poll_once_dispatches :
      (e : Engine W T P D) (m : Envelope T)
      → Engine.is_running b e ≡ true
      → (b.poll (tended s b e).world).0 ≡ some m
      → Traffic.poll_once s b e ≡ Traffic.dispatch s b m (polled e)
  unfolding Traffic.poll_once Server.poll
  poll_once_dispatches e m on heard = rw (Traffic.poll_once, Server.poll, on, heard) refl

  polled_local : (e : Engine W T P D) → Engine.local_node_id b (polled e) ≡ Engine.local_node_id b e
  unfolding Engine.local_node_id
  polled_local e =
      let same : (tended s b e).context ≡ e.context =
        ap (λ (x : Context W P D × Status). x.0) (fixed-tended s b e) in
      rw same refl

module _ {S W T P D : Type 0} ⦃ts : Timestamps T⦄ ⦃ds : Durations D⦄ ⦃infos : PeerInfos P⦄
    (s : Serializer) (u : UdpSockets S W D) (clock : W → T × W) where
  tended_running :
      (e : Engine (Udp S W D) T P D)
      → Engine.is_running (udp_backend s u clock) e ≡ true
      → (tended s (udp_backend s u clock) e).world.running ≡ true
  unfolding udp_backend Udp.is_running Engine.is_running
  tended_running e on = up-tended s (udp_backend-BackendLaws s u clock) e ∙ ground (arith, on)

module _ {S W T D : Type 0} ⦃ts : Timestamps T⦄ ⦃ds : Durations D⦄ {s : Serializer}
    (laws : SerializerLaws s) (u : UdpSockets S W D) (clock : W → T × W) where
  -- The two readings of the clock by a poll that brings a datagram.
  abbrev reading : Udp S W D → T × T
  reading b =
      let (made, w) = clock (u.recv_datagram b.config.max_datagram_size b.socket b.system).1 in
      (made, (clock w).0)

  polled_carrier :
      (m : Message) (host : Bytes) (port : ℕ) (b : Udp S W D)
      → b.running ≡ true
      → Message.is_valid m ≡ true
      → FitsMessage m
      → is_empty host ≡ false
      → (port == 0) ≡ false
      → (u.recv_datagram b.config.max_datagram_size b.socket b.system).0 ≡ carrier s m host port
      → let c : Backend (Udp S W D) T = udp_backend s u clock in
        (c.poll b).0 ≡ some (inbound m host port (reading b).0 (reading b).1)
  unfolding udp_backend
  polled_carrier m host port b on valid fits named open_port brings =
      ap (λ (x : Option (Envelope T) × Udp S W D). x.0)
        (poll_carrier laws u clock u clock m host port b on valid fits named open_port brings)

module _ {T : Type 0} ⦃ts : Timestamps T⦄ where
  inbound_message :
      (m : Message) (host : Bytes) (port : ℕ) (made t : T)
      → (inbound m host port made t).message ≡ m
  unfolding Envelope.make
  inbound_message m host port made t = refl

module _ {V S W T P D : Type 0} ⦃ts : Timestamps T⦄ ⦃ds : Durations D⦄ ⦃infos : PeerInfos P⦄
    {s : Serializer} (laws : SerializerLaws s) (times : TimestampLaws ts) (b : Backend V T)
    (u : UdpSockets S W D) (clock : W → T × W) where
  -- With a serializer and timestamps that keep their laws, an engine that runs over a UDP backend,
  -- on any socket: when the socket, at the poll of the server, brings from some host and port the
  -- encoded announcement message of an engine of another node id, with a valid configuration, made
  -- at a valid time and with fields that fit their widths, then one poll_once returns true, and
  -- the registry has the announced node id, host, port and time, Alive and seen at the time that
  -- the clock gives for it after that poll.
  pub announcement_received :
      (config : Config D) (sender : Engine V T P D) (receiver : Engine (Udp S W D) T P D)
      (host : Bytes) (port : ℕ)
      → Context.config_checked sender.context ≡ ok config
      → ts.is_valid (b.now sender.world).0 ≡ true
      → FitsAnnouncement laws (own_announcement config (b.now sender.world).0)
      → FitsMessage (Traffic.make_announce_message s b sender).0
      → Engine.is_running (udp_backend s u clock) receiver ≡ true
      → Engine.local_node_id (udp_backend s u clock) receiver ≢ config.node_id
      → is_empty host ≡ false
      → (port == 0) ≡ false
      → (let w = (tended s (udp_backend s u clock) receiver).world in
          (u.recv_datagram w.config.max_datagram_size w.socket w.system).0
          ≡ carrier s (Traffic.make_announce_message s b sender).0 host port)
      → Learns s
          (udp_backend s u clock)
          (own_announcement config (b.now sender.world).0)
          (polled s (udp_backend s u clock) receiver)
          (Traffic.poll_once s (udp_backend s u clock) receiver)
  announcement_received config sender receiver host port checked timed fits small on other named
        open_port brings =
      let c : Backend (Udp S W D) T = udp_backend s u clock in
      let m : Message = (Traffic.make_announce_message s b sender).0 in
      let at : Udp S W D = (tended s c receiver).world in
      let (type, from, payload) = announce_fields s b sender config checked in
      let valid : Message.is_valid m ≡ true =
        spoken_valid config m (config_checked_valid sender.context config checked) (inl type)
          from in
      let (made, t) = reading laws u clock at in
      let envelope : Envelope T = inbound m host port made t in
      let heard : (c.poll at).0 ≡ some envelope =
        polled_carrier laws u clock m host port at (tended_running s u clock receiver on) valid
          small named open_port brings in
      rw (poll_once_dispatches s c receiver envelope on heard)
        (announcement_heard laws times b c config sender (polled s c receiver) envelope checked
          timed fits small (λ same. other (sym (polled_local s c receiver) ∙ same))
          (inbound_message m host port made t)).1
