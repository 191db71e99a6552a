-- ===== src/Tests/OverUdp.antt =====
-- Messages and announcements over the UDP backend, on a concrete system.
use discovery.Base.{
  ◌≡◌, ◌≢◌, ◌==◌, refl, subst, List, [], ◌∷◌, Option, none, some, true, false, arith, length,
  if◌then◌else◌,
}
use discovery.Base.Int.{ℤ, pos, ◌-ℤ◌}
use discovery.Base.Text.{Bytes, codes}
use discovery.External.System.{SockAddr}
use discovery.External.Transport.{Transport}
use discovery.Types.MessageType
use discovery.Types.Status
use discovery.Core.Config
use discovery.Core.Context
use discovery.Core.Context.{Context, ok}
use discovery.Core.Envelope
use discovery.Core.Envelope.{Envelope}
use discovery.Core.Message
use discovery.Core.Message.{Message}
use discovery.Encoding.Encode.{encode_message, append_string, append_bytes}
use discovery.Encoding.Wire.{FitsMessage}
use discovery.Peer.Registry
use discovery.Platform.Linux
use discovery.Platform.Linux.{UdpSocket}
use discovery.Platform.Linux.Laws.{linux_sockets}
use discovery.Backend.{Backend}
use discovery.Backend.Udp
use discovery.Backend.Udp.{Udp, udp_backend}
use discovery.Backend.Udp.Delivery.{carrier, inbound, send-poll}
use discovery.Engine
use discovery.Engine.{Engine}
use discovery.Engine.Traffic
use discovery.Engine.Fixed.{tended}
use discovery.Engine.Hearing.{own_announcement, Learns}
use discovery.Engine.Broadcast.{announce_now-carrier}
use discovery.Engine.OverUdp.{polled, announcement_received}
use discovery.Engine.Sessions.{Action, session}
use discovery.Engine.Synchrony.{session_made-IsInStep}
use discovery.Backend.Udp.Contract.{udp_backend-BackendLaws}
use discovery.Tests.Wire.{big_endian, big_endian-laws}
use discovery.Tests.Data.{clock, spans, infos, clock-laws, node_a, node_b, hello}
use discovery.Tests.Engine.{
  Info, config_of, engine_of, quiet, said, said_value, said_small, checked_a, fits_a,
}
use discovery.Tests.System.{System, two_signals, fixed_clock}
use discovery.Tests.Udp.{opened, sockets, somewhere}

abbrev pub Node : Type 0
Node = Udp UdpSocket System ℤ

-- A running backend with bytes on their way to it.
abbrev awaiting : Option (Bytes × SockAddr Bytes) → Node
awaiting inbox = record {
  config = config_of node_b;
  running = true;
  socket = opened;
  system = record two_signals { inbox = inbox };
}

abbrev greeting : Envelope ℤ
greeting = record {
  message = hello;
  from_host = [];
  from_port = 0;
  to_host = codes "x";
  to_port = 9400;
  timestamp = pos 5;
  retry_count = 1;
  last_attempt_at = pos 5;
}

pub hello_small : FitsMessage hello
hello_small = record {
  from_node_id = omega arith;
  to_node_id = omega arith;
  correlation_id = omega arith;
  payload = omega arith;
}

-- What the socket of a running backend brings of a short message.
brought :
    (sockets.recv_datagram 65536 opened
      (awaiting (some (encode_message big_endian hello, somewhere))).system).0
    ≡ carrier big_endian hello (codes "h") 4000
unfolding linux_sockets Linux.recv_datagram Linux.received Linux.retry Linux.is_valid encode_message
    append_string append_bytes Message.is_valid MessageType.is_valid MessageType.to_u8
brought = refl

greeting_valid : Envelope.is_valid greeting ≡ true
unfolding Envelope.is_valid Message.is_valid MessageType.is_valid
greeting_valid = refl

greeting_aimed : Envelope.has_destination greeting ≡ true
unfolding Envelope.has_destination
greeting_aimed = refl

send-poll_example :
    let a = awaiting none in
    let b = awaiting (some (encode_message big_endian hello, somewhere)) in
    (let (sent, w) =
        sockets.send_datagram (carrier big_endian hello (codes "x") 9400) a.socket a.system in
      Udp.send big_endian sockets fixed_clock greeting a
      ≡ (sent == length (encode_message big_endian hello), record a { system = w }))
    × (let w = (sockets.recv_datagram 65536 b.socket b.system).1 in
        Udp.poll big_endian sockets fixed_clock b
        ≡ (some (inbound hello (codes "h") 4000 (pos 1001) (pos 1001)), record b { system = w }))
send-poll_example =
    send-poll big_endian-laws sockets fixed_clock sockets fixed_clock greeting (awaiting none)
      (awaiting (some (encode_message big_endian hello, somewhere))) (codes "h") 4000 refl
      greeting_valid greeting_aimed hello_small refl refl refl brought

abbrev pub udp : Backend Node ℤ
udp = udp_backend big_endian sockets fixed_clock

abbrev pub idle_transport : Transport Node Info
idle_transport = record { is_running = λ w. true; contains = λ k w. false; connect_peer = λ p w. w }

abbrev pub context_b : Context Node Info ℤ
context_b = record { config = some (config_of node_b); transport = some idle_transport }

-- The announcement of the other node is on its way to this engine, which has just announced itself.
abbrev receiver : Engine Node ℤ Info ℤ
receiver = record {
  context = context_b;
  registry = record { peers = [] };
  status = Status.running;
  last_announce_at = pos 1000;
  world = awaiting (some (encode_message big_endian said, somewhere));
}

receiver_running : Engine.is_running udp receiver ≡ true
unfolding Engine.is_running udp_backend Udp.is_running Status.is_running
receiver_running = refl

others : Engine.local_node_id udp receiver ≢ node_a
unfolding Engine.local_node_id Context.config_checked Config.is_valid Config.is_positive
others h = ground (arith, h)

overheard :
    (let w = (tended big_endian udp receiver).world in
      (sockets.recv_datagram w.config.max_datagram_size w.socket w.system).0
      ≡ carrier big_endian said (codes "h") 4000)
unfolding Traffic.maybe_announce Engine.refresh_peer_states Engine.read_clock Context.config_checked
    Config.is_valid Config.is_positive udp_backend Udp.now Registry.refresh_states linux_sockets
    Linux.recv_datagram Linux.received Linux.retry Linux.is_valid encode_message append_string
    append_bytes Message.is_valid MessageType.is_valid MessageType.to_u8 ◌-ℤ◌
overheard = refl

announcement_received_example :
    Learns big_endian udp
      (own_announcement (config_of node_a) (pos 1000))
      (polled big_endian udp receiver)
      (Traffic.poll_once big_endian udp receiver)
announcement_received_example =
    announcement_received big_endian-laws clock-laws quiet sockets fixed_clock (config_of node_a)
      (engine_of node_a) receiver (codes "h") 4000 checked_a refl fits_a
      (subst FitsMessage said_value said_small) receiver_running others refl refl
      (subst
        (λ (m : Message).
          let w = (tended big_endian udp receiver).world in
          (sockets.recv_datagram w.config.max_datagram_size w.socket w.system).0
          ≡ carrier big_endian m (codes "h") 4000)
        said_value overheard)

calm :
    (t : Transport Node Info)
    → context_b.transport ≡ some t
    → (p : Info) (w : Node) → udp.is_running (t.connect_peer p w) ≡ udp.is_running w
calm t h p w =
    let same : idle_transport ≡ t = cc h in
    subst (λ (r : Transport Node Info). udp.is_running (r.connect_peer p w) ≡ udp.is_running w) same
      refl

abbrev pub acts : List Action
acts = Action.starts ∷ Action.announces ∷ Action.polls_many 2 ∷ Action.stops ∷ Action.starts ∷ []

session_made-IsInStep_example :
    let w = Udp.make sockets (config_of node_b) two_signals in
    let e = session big_endian udp acts (Engine.make context_b w) in
    (Status.is_running e.status ≡ udp.is_running e.world)
    × (Engine.is_running udp e ≡ udp.is_running e.world)
session_made-IsInStep_example =
    session_made-IsInStep big_endian (udp_backend-BackendLaws big_endian sockets fixed_clock) acts
      context_b (Udp.make sockets (config_of node_b) two_signals)
      (unfold Udp.make udp_backend Udp.is_running in refl) calm

checked_b : Context.config_checked context_b ≡ ok (config_of node_b)
unfolding Context.config_checked Config.is_valid Config.is_positive
checked_b = refl

timed_b :
    (let (m, e₁) = Traffic.make_announce_message big_endian udp receiver in
      clock.is_valid (udp.now e₁.world).0 ≡ true)
unfolding udp_backend Udp.now
timed_b = refl

announce_now-carrier_example :
    let (m, e₁) = Traffic.make_announce_message big_endian udp receiver in
    let v = (udp.now (udp.now e₁.world).1).1 in
    let (n, w) =
      sockets.send_datagram
        (carrier big_endian m (codes "255.255.255.255") 4000)
        v.socket
        v.system in
    let (t, v') = udp.now (record v { system = w }) in
    Traffic.announce_now big_endian udp receiver ≡ (
      if n == length (encode_message big_endian m)
      then (true, record e₁ { world = v'; last_announce_at = t })
      else (false, record e₁ { world = record v { system = w } }))
announce_now-carrier_example =
    announce_now-carrier big_endian-laws sockets fixed_clock (config_of node_b) receiver checked_b
      receiver_running timed_b
