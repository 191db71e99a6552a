-- ===== src/Backend/Udp.antt =====
-- backend/UdpDiscoveryBackend.hpp, over any UDP socket. Its world is the backend's own state with
-- the system behind it, whose clock is `clock`.
pub mod Contract
pub mod Starting
pub mod Handles
pub mod Delivery
use discovery.Base.{◌==◌, Option, none, some, Bool, true, false, not, ◌||◌, length, if◌then◌else◌}
use discovery.External.Serializer.{Serializer}
use discovery.External.Time.{Timestamps, Durations}
use discovery.Core.Config
use discovery.Core.Config.{Config}
use discovery.Core.Datagram
use discovery.Core.Envelope
use discovery.Core.Envelope.{Envelope}
use discovery.Encoding.Encode.{make_datagram}
use discovery.Encoding.Decode.{decode_datagram}
use discovery.Platform.{UdpSockets}
use discovery.Backend.{Backend}

pub record Udp (S W D : Type 0) : Type 0 where
  pub config : Config D
  pub running : Bool
  pub socket : S
  pub system : W

module _ {S W D : Type 0} where
  unfoldable pub is_running : Udp S W D → Bool
  is_running b = b.running

module _ {S W D T : Type 0} (clock : W → T × W) where
  -- `Timestamp::now()`
  unfoldable pub now : Udp S W D → T × Udp S W D
  now b = let (t, w) = clock b.system in (t, record b { system = w })

module _ {S W D : Type 0} (u : UdpSockets S W D) where
  -- UdpDiscoveryBackend(config)
  unfoldable pub make : Config D → W → Udp S W D
  make config system = record {
    config = config;
    running = false;
    socket = u.closed;
    system = system;
  }

  unfoldable pub configure_socket : Udp S W D → Bool × Udp S W D
  configure_socket b =
      let (reused, w₁) = u.set_reuse_addr true b.socket b.system in
      let (broadcast, w₂) = u.set_broadcast b.config.enable_broadcast b.socket w₁ in
      let (received, w₃) = u.set_recv_timeout b.config.announce_interval b.socket w₂ in
      let (sent, w₄) = u.set_send_timeout b.config.announce_interval b.socket w₃ in
      if not reused
      then (false, record b { system = w₁ })
      else if not broadcast
      then (false, record b { system = w₂ })
      else if not received
      then (false, record b { system = w₃ })
      else if not sent
      then (false, record b { system = w₄ })
      else (true, record b { system = w₄ })

  -- socket_.close()
  unfoldable pub close_socket : Udp S W D → Udp S W D
  close_socket b =
      let (socket, system) = u.close b.socket b.system in
      record b { socket = socket; system = system }

  unfoldable pub stop : Udp S W D → Udp S W D
  unfolding close_socket
  stop b = close_socket (record b { running = false })

module _ {S W D : Type 0} ⦃ds : Durations D⦄ (u : UdpSockets S W D) where
  unfoldable pub start : Udp S W D → Bool × Udp S W D
  start b =
      if b.running
      then (true, b)
      else if not (Config.is_valid b.config)
      then (false, b)
      else let (opened, s₁, w₁) = u.open_socket b.socket b.system in
        let b₁ = record b { socket = s₁; system = w₁ } in
        let (configured, b₂) = configure_socket u b₁ in
        let (bound, s₃, w₃) = u.bind b.config.bind_host b.config.bind_port b₂.socket b₂.system in
        let b₃ = record b₂ { socket = s₃; system = w₃ } in
        if not opened
        then (false, b₁)
        else if not configured
        then (false, close_socket u b₂)
        else if not bound
        then (false, close_socket u b₃)
        else (true, record b₃ { running = true })

module _ {S W D T : Type 0} ⦃ts : Timestamps T⦄ (c : Serializer) (u : UdpSockets S W D)
    (clock : W → T × W) where
  unfoldable pub send : Envelope T → Udp S W D → Bool × Udp S W D
  send e b =
      if not b.running || not (Envelope.is_valid e) || not (Envelope.has_destination e)
      then (false, b)
      else let datagram = make_datagram c e.message e.to_host e.to_port in
        if not (Datagram.is_valid datagram)
        then (false, b)
        else let (sent, w) = u.send_datagram datagram b.socket b.system in
          (sent == length datagram.payload, record b { system = w })

  -- The envelope's constructor reads the clock too, and `timestamp` is then set by a second reading.
  unfoldable pub poll : Udp S W D → Option (Envelope T) × Udp S W D
  poll b =
      if not b.running
      then (none, b)
      else let (datagram, w₁) = u.recv_datagram b.config.max_datagram_size b.socket b.system in
        let b₁ = record b { system = w₁ } in
        if not (Datagram.is_valid datagram) then (none, b₁) else elim (decode_datagram c datagram) [
          | none ↦ (none, b₁)
          | some message ↦
              let (made, w₂) = clock w₁ in
              let (t, w₃) = clock w₂ in
              (
                some (record (Envelope.make made message) {
                  from_host = datagram.host;
                  from_port = datagram.port;
                  timestamp = t;
                }),
                record b₁ { system = w₃ },
              )
        ]

module _ {S W D T : Type 0} ⦃ts : Timestamps T⦄ ⦃ds : Durations D⦄ (c : Serializer)
    (u : UdpSockets S W D) (clock : W → T × W) where
  -- UdpDiscoveryBackend as an IDiscoveryBackend.
  unfoldable pub udp_backend : Backend (Udp S W D) T
  udp_backend = record {
    start = start u;
    stop = stop u;
    is_running = is_running;
    send = send c u clock;
    poll = poll c u clock;
    now = now clock;
  }
