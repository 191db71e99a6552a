-- ===== src/Engine.antt =====
-- include/softadastra/discovery/engine/DiscoveryEngine.hpp. A method takes the engine last and
-- returns its result with the engine after it. The engine's `world` holds the backend, the clock and
-- the transport engine; each reading of the clock goes through it.
pub mod AnnouncementCodec
pub mod AnnouncementWire
pub mod Traffic
pub mod Frame
pub mod Fixed
pub mod Sessions
pub mod Soundness
pub mod Invariant
pub mod Conduct
pub mod Upheld
pub mod Truth
pub mod Uptime
pub mod Sizes
pub mod Candour
pub mod Synchrony
pub mod Hearing
pub mod Handles
pub mod OverUdp
pub mod Broadcast
pub mod Polling
pub mod Answering
use discovery.Base.{
  ℕ, zero, suc, ◌+◌, List, [], ◌∷◌, ◌++◌, Option, none, some, Bool, true, false, not, ◌&&◌, ◌||◌,
  if◌then◌else◌,
}
use discovery.Base.Int.{ℤ, ◌-ℤ◌, leb_ℤ, halve}
use discovery.Base.Text.{Bytes, codes, same_text, to_string}
use discovery.External.Serializer.{Serializer}
use discovery.External.Time.{Timestamps, Durations}
use discovery.External.Transport.{PeerInfos, Transport}
use discovery.Types.MessageType
use discovery.Types.Status
use discovery.Types.Status.{Status}
use discovery.Core.Message
use discovery.Core.Message.{Message}
use discovery.Core.Announcement
use discovery.Core.Announcement.{Announcement}
use discovery.Core.Envelope
use discovery.Core.Envelope.{Envelope}
use discovery.Core.Config.{Config}
use discovery.Core.Context
use discovery.Core.Context.{Context, Result, ok, err}
use discovery.Peer.DiscoveredPeer
use discovery.Peer.DiscoveredPeer.{DiscoveredPeer}
use discovery.Peer.Registry
use discovery.Peer.Registry.{Registry}
use discovery.Backend.{Backend}
use discovery.Client
use discovery.Client.Server

pub record Engine (W T P D : Type 0) : Type 0 where
  pub context : Context W P D
  pub registry : Registry T
  pub status : Status
  pub last_announce_at : T
  pub world : W

module _ {W T P D : Type 0} ⦃ts : Timestamps T⦄ where
  -- DiscoveryEngine(context, backend)
  unfoldable pub make : Context W P D → W → Engine W T P D
  make context world = record {
    context = context;
    registry = Registry.empty_registry;
    status = Status.stopped;
    last_announce_at = ts.unset;
    world = world;
  }

module _ {W T P D : Type 0} ⦃ts : Timestamps T⦄ ⦃ds : Durations D⦄ (b : Backend W T) where
  unfoldable pub start : Engine W T P D → Bool × Engine W T P D
  start e =
      if Status.is_running e.status
      then (true, e)
      else if not (Context.is_valid e.context)
      then (false, record e { status = Status.failed })
      else let (started, world) = Server.start b e.world in
        if not started then (false, record e { status = Status.failed; world = world }) else (
          true,
          record e { status = Status.running; last_announce_at = ts.unset; world = world },
        )

  unfoldable pub stop : Engine W T P D → Engine W T P D
  stop e = elim e.status [
    | Status.stopped ↦ e
    | _ ↦ record e {
      world = Server.stop b e.world;
      registry = Registry.clear e.registry;
      last_announce_at = ts.unset;
      status = Status.stopped;
    }
  ]

  unfoldable pub is_running : Engine W T P D → Bool
  is_running e = Status.is_running e.status && b.is_running e.world

  -- `Timestamp::now()`
  unfoldable pub read_clock : Engine W T P D → T × Engine W T P D
  read_clock e = let (t, world) = b.now e.world in (t, record e { world = world })

  unfoldable pub local_node_id : Engine W T P D → Bytes
  local_node_id e = elim (Context.config_checked e.context) [
    | ok config ↦ config.node_id
    | err _ _ ↦ []
  ]

  unfoldable pub make_local_announcement : Engine W T P D → Announcement T × Engine W T P D
  make_local_announcement e = elim (Context.config_checked e.context) [
    | err _ _ ↦ (Announcement.initial, e)
    | ok config ↦
        let (t, e') = read_clock e in
        (Announcement.make t (local_node_id e) config.announce_host config.announce_port, e')
  ]

  unfoldable pub make_correlation_id : Bytes → Engine W T P D → Bytes × Engine W T P D
  make_correlation_id prefix e =
      let (t, e') = read_clock e in (prefix ++ (codes "-" ++ to_string (ts.millis t)), e')

  unfoldable pub make_outbound_envelope :
      Message → Bytes → ℕ → Engine W T P D → Envelope T × Engine W T P D
  make_outbound_envelope message host port e =
      let (t, e') = read_clock e in (Envelope.make_outbound t message host port, e')

  -- client_.send(envelope)
  unfoldable pub client_send : Envelope T → Engine W T P D → Bool × Engine W T P D
  client_send envelope e =
      let (sent, world) = Client.send b envelope e.world in (sent, record e { world = world })

  unfoldable pub make_probe_message : Engine W T P D → Message × Engine W T P D
  make_probe_message e =
      let (id, e') = make_correlation_id (codes "probe") e in
      (record (Message.probe (local_node_id e)) { correlation_id = id }, e')

  unfoldable pub probe_now : Engine W T P D → Bool × Engine W T P D
  probe_now e = if not (is_running e) then (false, e) else elim (Context.config_checked e.context) [
    | err _ _ ↦ (false, e)
    | ok config ↦
        let (message, e₁) = make_probe_message e in
        let (envelope, e₂) =
          make_outbound_envelope message config.broadcast_host config.broadcast_port e₁ in
        client_send envelope e₂
  ]

  -- The time of sending is in millis; the time to live is halved for the stale limit.
  unfoldable pub refresh_peer_states : Engine W T P D → Engine W T P D
  refresh_peer_states e = elim (Context.config_checked e.context) [
    | err _ _ ↦ e
    | ok config ↦
        let (t, e') = read_clock e in
        record e' {
          registry =
              (Registry.refresh_states t (ds.from_millis (halve (ds.millis config.peer_ttl)))
                config.peer_ttl e'.registry).0;
        }
  ]

  -- The reading of the clock that `upsert_announcement` files. A known peer takes the first one; the
  -- constructor of a new peer takes the first and `mark_alive` a second one.
  unfoldable pub filing_time : Announcement T → Engine W T P D → T × Engine W T P D
  filing_time a e =
      if not (Announcement.is_valid a)
      then (ts.unset, e)
      else elim (Registry.find a.node_id e.registry) [
        | some existing ↦ read_clock e
        | none ↦ read_clock (read_clock e).1
      ]

  unfoldable pub upsert_discovered_peer : Announcement T → Engine W T P D → Engine W T P D
  upsert_discovered_peer a e =
      let (t, e') = filing_time a e in
      record e' { registry = Registry.upsert_announcement t a e'.registry }

module _ {T P : Type 0} ⦃infos : PeerInfos P⦄ where
  unfoldable pub valid_infos : List (DiscoveredPeer T) → List P
  valid_infos [] = []
  valid_infos (p ∷ rest) =
      let found = valid_infos rest in
      if infos.is_valid (DiscoveredPeer.to_peer_info p)
      then DiscoveredPeer.to_peer_info p ∷ found
      else found

module _ {W T P D : Type 0} ⦃infos : PeerInfos P⦄ where
  unfoldable pub integrate_with_transport : Announcement T → Engine W T P D → Engine W T P D
  integrate_with_transport a e =
      let peer = infos.make a.node_id a.host a.port in
      if not (infos.is_valid peer) then e else elim (Context.transport_checked e.world e.context) [
        | err _ _ ↦ e
        | ok t ↦
            if t.contains (infos.node_id peer) e.world
            then e
            else record e { world = t.connect_peer peer e.world }
      ]

  unfoldable pub available_transport_peers : Engine W T P D → List P
  available_transport_peers e = Registry.transport_peers e.registry

  unfoldable pub alive_transport_peers : Engine W T P D → List P
  unfolding valid_infos
  alive_transport_peers e = valid_infos (Registry.alive_peers e.registry)
