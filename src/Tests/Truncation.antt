-- ===== src/Tests/Truncation.antt =====
-- A datagram that is too long for the UDP backend, on a concrete system.
use discovery.Base.{◌≡◌, refl, [], ◌∷◌, none, some, true, arith}
use discovery.Base.Text.{Bytes, codes}
use discovery.Platform.Linux
use discovery.Platform.Linux.Laws.{linux_sockets}
use discovery.Backend.Udp
use discovery.Backend.Udp.{Udp}
use discovery.Backend.Udp.Delivery.{poll_truncated}
use discovery.Tests.Wire.{big_endian, big_endian-laws}
use discovery.Tests.Data.{clock, spans, node_b, hello}
use discovery.Tests.Encoding.{hello_wire, hello_encoded, hello_valid}
use discovery.Tests.Engine.{config_of}
use discovery.Tests.System.{two_signals, fixed_clock}
use discovery.Tests.Udp.{opened, sockets, somewhere}
use discovery.Tests.OverUdp.{Node, hello_small}

-- A backend with room for five bytes, to which nineteen are on their way.
abbrev cramped : Node
cramped = record {
  config = record (config_of node_b) { max_datagram_size = 5 };
  running = true;
  socket = opened;
  system = record two_signals { inbox = some (hello_wire, somewhere) };
}

abbrev front : Bytes
front = 2 ∷ 0 ∷ 0 ∷ 0 ∷ 1 ∷ []

abbrev back : Bytes
back = 0 ∷ 0 ∷ 0 ∷ 0 ∷ 0 ∷ 0 ∷ 0 ∷ 1 ∷ 112 ∷ 0 ∷ 0 ∷ 0 ∷ 0 ∷ []

cut_off :
    (sockets.recv_datagram 5 opened cramped.system).0
    ≡ record { host = codes "h"; port = 4000; payload = front }
unfolding linux_sockets Linux.recv_datagram Linux.received Linux.retry Linux.is_valid
cut_off = refl

poll_truncated_example :
    Udp.poll big_endian sockets fixed_clock cramped
    ≡ (none, record cramped { system = (sockets.recv_datagram 5 opened cramped.system).1 })
poll_truncated_example =
    poll_truncated big_endian-laws sockets fixed_clock hello (codes "h") front 97 back 4000 cramped
      refl hello_valid hello_small (omega arith) hello_encoded cut_off
