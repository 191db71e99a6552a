-- ===== src/Tests/Leaks.antt =====
-- Handles of engines and services over the UDP backend, on a concrete system.
use discovery.Base.{◌≡◌, refl, subst, List, [], ◌∷◌, some, true, false, ◌&&◌, if◌then◌else◌}
use discovery.Base.Int.{ℤ}
use discovery.External.Transport.{Transport}
use discovery.Core.Context
use discovery.Core.Context.{Context}
use discovery.Encoding.Encode.{encode_message}
use discovery.Options
use discovery.Options.{Options}
use discovery.Backend.Udp.Starting.{IsTidy}
use discovery.Engine.Handles.{IsApart}
use discovery.Service
use discovery.Service.Serving.{Request, history}
use discovery.Service.OverUdp.{
  all_succeed, preparations, make_over_udp, history_handles, start-make_over_udp,
}
use discovery.Tests.Wire.{big_endian}
use discovery.Tests.Data.{clock, spans, infos, node_b}
use discovery.Tests.Engine.{Info, said}
use discovery.Tests.System.{System, is_open, connect, two_signals, fixed_clock}
use discovery.Tests.Udp.{sockets, sockets-laws, somewhere}
use discovery.Tests.OverUdp.{Node, udp}

-- A transport engine that opens a handle for every peer.
abbrev pub dialling : Transport Node Info
dialling = record {
  is_running = λ b. true;
  contains = λ k b. false;
  connect_peer = λ p b. record b { system = connect b.system };
}

dialling-IsApart : (c : Context Node Info ℤ) → c.transport ≡ some dialling → IsApart is_open c
dialling-IsApart c h t has p b =
    let same : dialling ≡ t = cc (h, has) in
    subst
      (λ (r : Transport Node Info).
        (((r.connect_peer p b).socket ≡ b.socket) × ((r.connect_peer p b).running ≡ b.running))
        × ((j : ℤ) → is_open j (r.connect_peer p b).system ≡ is_open j b.system))
      same ((refl, refl), λ j. refl)

abbrev pub options_b : Options ℤ
options_b = Options.local node_b 4000 7000

-- Polls with a handler that opens a handle too, and stops and starts again.
abbrev pub requests : List (Request Node ℤ)
requests =
    Request.sets_handler (some (λ p b. record b { system = connect b.system }))
    ∷ Request.starts
    ∷ Request.polls_many 2
    ∷ Request.lists
    ∷ Request.stops
    ∷ Request.starts
    ∷ []

-- The announcement of the other node is on its way.
abbrev pub expecting : System
expecting = record two_signals { inbox = some (encode_message big_endian said, somewhere) }

made_transport :
    (Context.make {P = Info} (Options.to_config options_b) dialling).transport ≡ some dialling
unfolding Context.make
made_transport = refl

history_handles_example :
    let v = history big_endian udp requests (make_over_udp sockets options_b dialling expecting) in
    IsTidy sockets-laws (λ j. is_open j expecting) v.engine.world
    × ((j : ℤ) → is_open j (Service.stop udp v).engine.world.system ≡ is_open j expecting)
history_handles_example =
    history_handles big_endian sockets-laws fixed_clock (λ j w. refl) requests options_b dialling
      expecting ((λ p b. ((refl, refl), λ j. refl)), (tt, (tt, (tt, (tt, (tt, tt))))))
      (dialling-IsApart (Context.make (Options.to_config options_b) dialling) made_transport)

start-make_over_udp_example :
    let (ready, (socket, w')) =
      all_succeed (preparations sockets options_b) (sockets.closed, two_signals) in
    let (started, v) = Service.start udp (make_over_udp sockets options_b dialling two_signals) in
    (started ≡ (Options.is_valid options_b && ready))
    × (Service.is_running udp v ≡ started)
    × ((if started then v.engine.world.socket else socket) ≡ socket)
    × ((if started then v.engine.world.system else w') ≡ w')
start-make_over_udp_example =
    start-make_over_udp big_endian sockets fixed_clock options_b dialling two_signals
