-- ===== src/Tests/Dialling.antt =====
-- A service over UDP whose transport engine opens a handle of its own for every peer that it finds.
use discovery.Base.{◌≡◌, refl, [], ◌∷◌}
use discovery.Base.Int.{pos, ◌-ℤ◌, halve}
use discovery.Base.Dict
use discovery.Base.Text
use discovery.Types.PeerState
use discovery.Core.Datagram
use discovery.Engine
use discovery.Types.MessageType
use discovery.Types.Status
use discovery.Core.Announcement
use discovery.Core.Config
use discovery.Core.Context
use discovery.Core.Envelope
use discovery.Core.Message
use discovery.Client
use discovery.Client.Server
use discovery.Engine.Traffic
use discovery.Engine.AnnouncementCodec.{
  encode_announcement, decode_announcement, decode_span, read_string, append_string,
}
use discovery.Peer.DiscoveredPeer
use discovery.Backend.Udp
use discovery.Backend.Udp.{udp_backend}
use discovery.Service
use discovery.Service.OverUdp.{make_over_udp}
use discovery.Options
use discovery.Encoding.Encode
use discovery.Encoding.Decode
use discovery.Peer.Registry
use discovery.Platform.Linux
use discovery.Platform.Linux.Laws.{linux_sockets}
use discovery.Service.Serving.{serve}
use discovery.Service.Serving.{history}
use discovery.Peer.Published
use discovery.Tests.Wire.{big_endian}
use discovery.Tests.Data.{clock, spans, infos}
use discovery.Tests.Udp.{sockets}
use discovery.Tests.OverUdp.{udp}
use discovery.Tests.Leaks.{dialling, options_b, requests, expecting}

-- The transport engine and the handler open a handle each.
dialled :
    (history big_endian udp requests
      (make_over_udp sockets options_b dialling expecting)).engine.world.system.streams
    ≡ pos 5 ∷ pos 4 ∷ []
unfolding history serve Service.start Service.announce_now Service.poll Service.poll_many
    Service.stop Service.peers Service.peers_loop Service.notify_loop Service.on_peer_found
    Options.local Udp.stop Udp.close_socket Engine.stop Registry.clear Service.notify_new_peers
    Service.make make_over_udp udp_backend Udp.make Udp.start Udp.send Udp.poll Udp.now
    Udp.is_running Udp.configure_socket Options.to_config Options.is_valid Config.initial
    Config.is_valid Config.is_positive Context.make Context.is_valid Context.has_config
    Context.has_transport Context.config_checked Context.transport_checked Engine.make Engine.start
    Engine.is_running Engine.read_clock Engine.local_node_id Engine.make_local_announcement
    Engine.make_correlation_id Engine.make_outbound_envelope Engine.client_send
    Engine.refresh_peer_states Engine.filing_time Engine.upsert_discovered_peer
    Engine.integrate_with_transport Traffic.make_announce_message Traffic.announce_now
    Traffic.maybe_announce Traffic.handle_announce Traffic.dispatch Traffic.poll_once
    encode_announcement decode_announcement decode_span read_string append_string Announcement.make
    Announcement.is_valid Message.announce Message.make Message.is_valid MessageType.is_valid
    MessageType.to_u8 MessageType.from_u8 Envelope.make Envelope.make_outbound Envelope.is_valid
    Envelope.has_destination Envelope.mark_attempt Client.send Server.start Server.poll
    Datagram.is_valid Datagram.initial Status.is_running Registry.get Registry.find Registry.upsert
    Registry.upsert_announcement Registry.refresh_states Registry.empty_registry Registry.size
    DiscoveredPeer.make DiscoveredPeer.mark_alive DiscoveredPeer.touch DiscoveredPeer.is_valid
    PeerState.is_valid Text.to_string Text.decimal Text.same_text Dict.lookup Dict.insert
    Encode.make_datagram Encode.encode_message Encode.append_bytes Encode.append_string
    Decode.decode_datagram Decode.decode_message Decode.read_u8 Decode.read_string Decode.read_bytes
    linux_sockets Linux.initial Linux.is_valid Linux.open_socket Linux.close Linux.bind
    Linux.bind_open Linux.make_sockaddr Linux.set_reuse_addr Linux.set_broadcast
    Linux.set_recv_timeout Linux.set_send_timeout Linux.send_datagram Linux.send_to
    Linux.recv_datagram Linux.received Linux.retry Text.c_str Registry.available_peers
    Traffic.poll_many ◌-ℤ◌ DiscoveredPeer.available PeerState.is_available Registry.refresh_peer
    halve Published.is_valid Service.to_public_peer Published.from_discovered_peer Server.stop
dialled = refl
