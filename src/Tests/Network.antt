-- ===== src/Tests/Network.antt =====
-- Two services on one network, which keeps what was sent and brings the oldest of it.
use discovery.Base.{
  ℕ, ◌<◌, ◌≢◌, ltb, ◌≡◌, refl, sym, ap, ◌∙◌, ◌++◌, Option, ◌⊎◌, drop, take-append-drop, inl, inr,
  ◌&&◌, if◌then◌else◌, Bool, true, false, All, List, [], ◌∷◌, some, length, take, get_elem?, arith,
  Bool-cases, none,
}
use discovery.Base.Int.{ℤ, pos, negsuc}
use mathlib.Core.List.{append-nil}
use discovery.Base.Dict
use discovery.Base.Text
use discovery.Base.Text.{Bytes, IsByte, codes}
use mathlib.Core.Option.{some-injective}
use discovery.External.Carrying.{IsStart, IsNoNews, IsNewsOf, PosixCarries, WinsockCarries}
use discovery.External.System.{SockAddr, Outcome, done, failed, Posix, Winsock}
use discovery.External.Transport.{Transport}
use discovery.Types.PeerState
use discovery.Core.Datagram
use discovery.Core.Datagram.{Datagram}
use discovery.Engine
use discovery.Types.MessageType
use discovery.Types.Status
use discovery.Core.Announcement
use discovery.Core.Config
use discovery.Core.Context
use discovery.Core.Envelope
use discovery.Core.Message
use discovery.Client
use discovery.Client.Server
use discovery.Engine.Traffic
use discovery.Engine.AnnouncementCodec.{
  encode_announcement, decode_announcement, decode_span, read_string, append_string,
}
use discovery.Peer.DiscoveredPeer
use discovery.Backend.Udp
use discovery.Backend.Udp.{udp_backend}
use discovery.Service
use discovery.Service.OverUdp.{make_over_udp}
use discovery.Options
use discovery.Encoding.Encode
use discovery.Encoding.Decode
use discovery.Options.{Options}
use discovery.Peer.DiscoveredPeer.{DiscoveredPeer}
use discovery.Peer.Registry
use discovery.Platform.{UdpSockets}
use discovery.Platform.Linux
use discovery.Platform.Linux.{UdpSocket}
use discovery.Platform.Linux.Laws.{linux_sockets}
use discovery.Platform.Windows.Laws.{windows_sockets}
use discovery.Network.Linux.{linux_sockets-Carries}
use discovery.Network.Windows.{windows_sockets-Carries}
use discovery.Tests.System.{inet}
use discovery.Backend.Udp.{Udp}
use discovery.Service.Serving.{Request, serve}
use discovery.Network.{Node, Net, take_turn, Reach, here, next, serves}
use discovery.Network.Carried.{Carries}
use discovery.Network.Listed.{IsOther, udp_net-peers}
use discovery.Network.OverUdp.{
  system_sharing, udp_node, udp_net, IsDiscreet, IsOrderly, IsOfMember, udp_net-IsOfMember,
}
use discovery.Tests.Wire.{big_endian, big_endian-laws}
use discovery.Tests.Data.{clock, spans, infos, clock-laws, node_a, node_b}
use discovery.Tests.Engine.{Info}

-- The payloads on the way, the oldest first.
abbrev Air : Type 0
Air = List Bytes

abbrev all_bytes : Bytes → Bool
all_bytes [] = true
all_bytes (x ∷ xs) = ltb x 256 && all_bytes xs

all_bytes_lem : (xs : Bytes) → all_bytes xs ≡ true → All IsByte xs
all_bytes_lem [] h = tt
all_bytes_lem (x ∷ xs) h = (ground (arith, h), all_bytes_lem xs (ground (arith, h)))

abbrev In : Bytes → Air → Type 0
In p [] = ⊥
In p (q ∷ w) = (p ≡ q) ⊎ In p w

abbrev push : Bytes → Air → Air
push p [] = p ∷ []
push p (q ∷ w) = q ∷ push p w

In-push : (p q : Bytes) (w : Air) → In p (push q w) → In p w ⊎ (p ≡ q)
In-push p q [] (inl same) = inr same
In-push p q [] (inr later) = absurd later
In-push p q (r ∷ w) (inl same) = inl (inl same)
In-push p q (r ∷ w) (inr later) = elim (In-push p q w later) [
  | inl before ↦ inl (inr before)
  | inr new ↦ inr new
]

-- The oldest payload on the way, if it is made of bytes.
abbrev oldest : ℕ → Air → Option (Bytes × SockAddr Bytes)
oldest size [] = none
oldest size (p ∷ w) =
    if all_bytes p then some (take size p, record { address = codes "h"; port = 4000 }) else none

abbrev outcome : Option (Bytes × SockAddr Bytes) → Outcome (Bytes × SockAddr Bytes)
outcome none = failed
outcome (some r) = done r

abbrev air_posix : Posix Bytes Air
air_posix = record {
  socket = λ w. (pos 3, w);
  bind = λ fd a w. (true, w);
  sendto = λ fd d to w. (done (length d), push d w);
  recvfrom = λ fd size w. (outcome (oldest size w), w);
  close = λ fd w. w;
  setsockopt = λ fd o w. (true, w);
  signals = λ w. 0;
}

abbrev air_winsock : Winsock Bytes Air
air_winsock = record {
  invalid_socket = negsuc 0;
  socket = λ w. (pos 3, w);
  bind = λ s a w. (true, w);
  sendto = λ s d to w. (some (length d), push d w);
  recvfrom = λ s size w. (oldest size w, w);
  closesocket = λ s w. w;
  setsockopt = λ s o w. (true, w);
}

abbrev air_clock : Air → ℤ × Air
air_clock w = (pos 1000, w)

abbrev OnWay : Bytes → Air → Type 0
OnWay p w = All IsByte p × In p w

oldest_brings :
    (size : ℕ) (w : Air) (r : Bytes × SockAddr Bytes)
    → oldest size w ≡ some r
    → (p : Bytes) × OnWay p w × IsStart r.0 p
oldest_brings size [] r h = cc h
oldest_brings size (p ∷ w) r h = elim (Bool-cases (all_bytes p)) [
  | inl bytes ↦
      let cut : take size p ≡ r.0 =
        ap (λ (x : Bytes × SockAddr Bytes). x.0) (some-injective _ _ (rw bytes at h)) in
      (
        p,
        (all_bytes_lem p bytes, inl refl),
        (drop size p, sym (take-append-drop size p) ∙ ap (λ (x : Bytes). x ++ drop size p) cut),
      )
  | inr bad ↦ cc (rw bad at h)
]

outcome_done :
    (o : Option (Bytes × SockAddr Bytes)) (r : Bytes × SockAddr Bytes)
    → outcome o ≡ done r
    → o ≡ some r
outcome_done none r h = cc h
outcome_done (some q) r h = ground (arith, h)

push_news : (data' : Bytes) (w : Air) → IsNewsOf OnWay data' w (push data' w)
push_news data' w p (bytes, sent) = elim (In-push p data' w sent) [
  | inl before ↦ inl (bytes, before)
  | inr new ↦ inr ([], sym (append-nil p ∙ new))
]

air_posix-PosixCarries : PosixCarries air_posix OnWay
air_posix-PosixCarries = record {
  bytes = λ p w sent. sent.0;
  socket_news = λ w p sent. sent;
  close_news = λ fd w p sent. sent;
  bind_news = λ fd a w p sent. sent;
  setsockopt_news = λ fd o w p sent. sent;
  recvfrom_news = λ fd size w p sent. sent;
  sendto_news = λ fd data' to w. push_news data' w;
  recvfrom_brings = λ fd size w r h. oldest_brings size w r (outcome_done (oldest size w) r h);
}

air_winsock-WinsockCarries : WinsockCarries air_winsock OnWay
air_winsock-WinsockCarries = record {
  bytes = λ p w sent. sent.0;
  socket_news = λ w p sent. sent;
  closesocket_news = λ s w p sent. sent;
  bind_news = λ s a w p sent. sent;
  setsockopt_news = λ s o w p sent. sent;
  recvfrom_news = λ s size w p sent. sent;
  sendto_news = λ s data' to w. push_news data' w;
  recvfrom_brings = λ s size w r h. oldest_brings size w r h;
}

abbrev air_sockets : UdpSockets UdpSocket Air ℤ
air_sockets = linux_sockets inet air_posix

linux_sockets-Carries_example : Carries air_sockets air_clock OnWay
linux_sockets-Carries_example =
    linux_sockets-Carries inet air_posix-PosixCarries air_clock (λ w p sent. sent)

windows_sockets-Carries_example : Carries (windows_sockets {D = ℤ} inet air_winsock) air_clock OnWay
windows_sockets-Carries_example =
    windows_sockets-Carries inet air_winsock-WinsockCarries air_clock (λ w p sent. sent)

air-Carries : Carries air_sockets air_clock OnWay
air-Carries = linux_sockets-Carries inet air_posix-PosixCarries air_clock (λ w p sent. sent)

abbrev Host : Type 0
Host = Udp UdpSocket Air ℤ

abbrev options_of : Bytes → Options ℤ
options_of k = record {
  node_id = k;
  bind_host = codes "0.0.0.0";
  bind_port = 4000;
  broadcast_host = codes "255.255.255.255";
  broadcast_port = 4000;
  announce_host = codes "h";
  announce_port = 7000;
  announce_interval = pos 3000;
  peer_ttl = pos 15000;
  enable_broadcast = true;
}

abbrev idle : Transport Host Info
idle = record { is_running = λ w. true; contains = λ k w. false; connect_peer = λ p w. w }

abbrev members : List (Options ℤ × Transport Host Info)
members = (options_of node_a, idle) ∷ (options_of node_b, idle) ∷ []

orderly : (k : Bytes) → length k < 100 → IsOrderly {S = UdpSocket} OnWay (options_of k, idle)
orderly k short = record {
  brief = omega (arith, short);
  port = omega arith;
  silent = λ p b q sent. sent;
}

abbrev start : Net Host Air ℤ Info ℤ
start = udp_net big_endian air_sockets air_clock [] members

abbrev turned : ℕ → Request Host ℤ → Net Host Air ℤ Info ℤ → Net Host Air ℤ Info ℤ
turned = take_turn big_endian system_sharing

-- Both start, the first announces itself, and the second polls.
abbrev reached : Net Host Air ℤ Info ℤ
reached =
    turned 1 Request.polls
      (turned 0 Request.announces (turned 1 Request.starts (turned 0 Request.starts start)))

reached-Reach : Reach big_endian system_sharing (IsDiscreet OnWay) (IsNoNews OnWay) start reached
reached-Reach =
    next
      (next (next (next here (serves 0 Request.starts start tt)) (serves 1 Request.starts _ tt))
        (serves 0 Request.announces _ tt))
      (serves 1 Request.polls _ tt)

abbrev second : List (Node Host ℤ Info ℤ) → Node Host ℤ Info ℤ
second [] = udp_node big_endian air_sockets air_clock [] (options_of node_b, idle)
second (n ∷ []) = n
second (n ∷ m ∷ ns) = m

-- What the second node knows of the first.
abbrev heard : DiscoveredPeer ℤ
heard = record {
  announcement = record { node_id = node_a; host = codes "h"; port = 7000; timestamp = pos 1000 };
  state = PeerState.alive;
  last_seen_at = pos 1000;
  error_count = 0;
}

second_at : get_elem? reached.nodes 1 ≡ some (second reached.nodes)
unfolding take_turn
second_at = refl

second_knows : Registry.get node_a (second reached.nodes).service.engine.registry ≡ some heard
unfolding take_turn serve Service.start Service.announce_now Service.poll Service.notify_new_peers
    Service.make make_over_udp udp_backend Udp.make Udp.start Udp.send Udp.poll Udp.now
    Udp.is_running Udp.configure_socket Options.to_config Options.is_valid Config.initial
    Config.is_valid Config.is_positive Context.make Context.is_valid Context.has_config
    Context.has_transport Context.config_checked Context.transport_checked Engine.make Engine.start
    Engine.is_running Engine.read_clock Engine.local_node_id Engine.make_local_announcement
    Engine.make_correlation_id Engine.make_outbound_envelope Engine.client_send
    Engine.refresh_peer_states Engine.filing_time Engine.upsert_discovered_peer
    Engine.integrate_with_transport Traffic.make_announce_message Traffic.announce_now
    Traffic.maybe_announce Traffic.handle_announce Traffic.dispatch Traffic.poll_once
    encode_announcement decode_announcement decode_span read_string append_string Announcement.make
    Announcement.is_valid Message.announce Message.make Message.is_valid MessageType.is_valid
    MessageType.to_u8 MessageType.from_u8 Envelope.make Envelope.make_outbound Envelope.is_valid
    Envelope.has_destination Envelope.mark_attempt Client.send Server.start Server.poll
    Datagram.is_valid Datagram.initial Status.is_running Registry.get Registry.find Registry.upsert
    Registry.upsert_announcement Registry.refresh_states Registry.empty_registry Registry.size
    DiscoveredPeer.make DiscoveredPeer.mark_alive DiscoveredPeer.touch DiscoveredPeer.is_valid
    PeerState.is_valid Text.to_string Text.decimal Text.same_text Dict.lookup Dict.insert
    Encode.make_datagram Encode.encode_message Encode.append_bytes Encode.append_string
    Decode.decode_datagram Decode.decode_message Decode.read_u8 Decode.read_string Decode.read_bytes
    linux_sockets Linux.initial Linux.is_valid Linux.open_socket Linux.close Linux.bind
    Linux.bind_open Linux.make_sockaddr Linux.set_reuse_addr Linux.set_broadcast
    Linux.set_recv_timeout Linux.set_send_timeout Linux.send_datagram Linux.send_to
    Linux.recv_datagram Linux.received Linux.retry Text.c_str
second_knows = refl

udp_net-IsOfMember_example :
    (heard.announcement.node_id ≡ node_a)
    × (node_a
        ≢ Engine.local_node_id (second reached.nodes).backend (second reached.nodes).service.engine)
    × IsOfMember members node_a (codes "h") 7000
udp_net-IsOfMember_example =
    udp_net-IsOfMember big_endian-laws clock-laws air_sockets air_clock air-Carries
      (λ w. omega arith) [] (λ p sent. sent.1) members
      (orderly node_a (omega arith), (orderly node_b (omega arith), tt)) reached reached-Reach 1
      (second reached.nodes) node_a heard second_at second_knows

udp_net-peers_example :
    All
      (IsOther members (second reached.nodes))
      (Service.peers (second reached.nodes).backend (second reached.nodes).service).0
udp_net-peers_example =
    udp_net-peers big_endian-laws clock-laws air_sockets air_clock air-Carries (λ w. omega arith) []
      (λ p sent. sent.1) members (orderly node_a (omega arith), (orderly node_b (omega arith), tt))
      reached reached-Reach 1 (second reached.nodes) second_at
