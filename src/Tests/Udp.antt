-- ===== src/Tests/Udp.antt =====
-- The sockets and the UDP backend on a concrete system.
use discovery.Base.{◌+◌, ◌*◌, ◌≡◌, ◌↔◌, ◌<◌, ◌≤◌, refl, List, [], ◌∷◌, some, arith}
use discovery.Base.Int.{ℤ, pos}
use discovery.Base.Text
use discovery.Base.Text.{Bytes, codes}
use discovery.Core.Config
use discovery.External.System.{SockAddr, done}
use discovery.Platform.{UdpSockets, UdpSocketLaws}
use discovery.Platform.Linux
use discovery.Platform.Linux.{UdpSocket}
use discovery.Platform.Linux.Retries.{settles, retries, send_to-Settles}
use discovery.Platform.Linux.Laws.{linux_sockets, linux_sockets-UdpSocketLaws}
use discovery.Platform.Windows.Laws.{windows_sockets, windows_sockets-UdpSocketLaws}
use discovery.Platform.Timeouts.{whole, make_timeval-make_timeout_ms}
use discovery.Platform.Windows.{make_timeout_ms}
use discovery.Backend.Contract.{BackendLaws}
use discovery.Backend.Udp
use discovery.Backend.Udp.{Udp, udp_backend}
use discovery.Backend.Udp.Contract.{udp_backend-BackendLaws}
use discovery.Backend.Udp.Handles.{Use, apply_all, apply_all_handles}
use discovery.Backend.Udp.Starting.{IsTidy}
use discovery.Tests.Wire.{big_endian}
use discovery.Tests.Data.{clock, spans, node_a}
use discovery.Tests.Engine.{config_of}
use discovery.Tests.System.{
  System, inet, posix, posix-laws, winsock, winsock-laws, is_open, two_signals, fixed_clock,
}

abbrev pub sockets : UdpSockets UdpSocket System ℤ
sockets = linux_sockets inet posix

pub sockets-laws : UdpSocketLaws sockets is_open
sockets-laws = linux_sockets-UdpSocketLaws inet posix-laws

abbrev pub opened : UdpSocket
opened = record { fd = pos 3 }

abbrev pub somewhere : SockAddr Bytes
somewhere = record { address = codes "h"; port = 4000 }

-- The two signals interrupt two calls, and the third goes through.
abbrev one_signal : System
one_signal = record two_signals { signals = 1 }

abbrev no_signal : System
no_signal = record two_signals { signals = 0 }

send_to-Settles_example :
    Linux.send_to inet posix (codes "h") 4000 (some (7 ∷ [])) opened two_signals
    ≡ (1, record no_signal { sent = (7 ∷ [], somewhere) ∷ [] })
send_to-Settles_example =
    send_to-Settles inet posix (codes "h") (7 ∷ []) 4000 somewhere opened 2 two_signals
      (record no_signal { sent = (7 ∷ [], somewhere) ∷ [] }) (done 1)
      (unfold Linux.is_valid in refl) refl (unfold Linux.make_sockaddr Text.c_str in refl)
      (omega arith)
      (retries {w' = one_signal} refl (retries {w' = no_signal} refl (settles refl (λ e. cc e))))

abbrev calling : System → System
calling w = record w { inbox = some (7 ∷ [], somewhere) }

-- Two signals do not stop a datagram from going out.
sent_despite_signals :
    (Linux.send_to inet posix (codes "h") 4000 (some (7 ∷ [])) opened two_signals).0 ≡ 1
unfolding Linux.send_to Linux.retry Linux.is_valid Linux.make_sockaddr Text.c_str
sent_despite_signals = refl

linux_sockets-UdpSocketLaws_example : UdpSocketLaws sockets is_open
linux_sockets-UdpSocketLaws_example = linux_sockets-UdpSocketLaws inet posix-laws

windows_sockets-UdpSocketLaws_example : UdpSocketLaws {D = ℤ} (windows_sockets inet winsock) is_open
windows_sockets-UdpSocketLaws_example = windows_sockets-UdpSocketLaws inet winsock-laws

make_timeval-make_timeout_ms_example :
    let t = Linux.make_timeval (pos 1500) in
    (t.tv_sec * 1000000 + t.tv_usec ≡ 1500 * 1000)
    × (t.tv_usec < 1000000)
    × (make_timeout_ms (pos 1500) ≤ 4294967295)
    × (1500 ≤ 4294967295 → make_timeout_ms (pos 1500) ≡ whole (pos 1500))
    × (4294967295 ≤ 1500 → make_timeout_ms (pos 1500) ≡ 4294967295)
    × (t.tv_sec + t.tv_usec ≡ 0 ↔ whole (pos 1500) ≡ 0)
    × (make_timeout_ms (pos 1500) ≡ 0 ↔ whole (pos 1500) ≡ 0)
make_timeval-make_timeout_ms_example = make_timeval-make_timeout_ms (pos 1500)

udp_backend-BackendLaws_example : BackendLaws (udp_backend big_endian sockets fixed_clock)
udp_backend-BackendLaws_example = udp_backend-BackendLaws big_endian sockets fixed_clock

-- Started twice, stopped, and started again.
abbrev uses : List (Use ℤ)
uses = Use.starts ∷ Use.starts ∷ Use.polls ∷ Use.stops ∷ Use.starts ∷ []

apply_all_handles_example :
    let b =
      apply_all big_endian sockets fixed_clock uses
        (Udp.make sockets (config_of node_a) two_signals) in
    IsTidy sockets-laws (λ j. is_open j two_signals) b
    × ((j : ℤ) → is_open j (Udp.stop sockets b).system ≡ is_open j two_signals)
apply_all_handles_example =
    apply_all_handles big_endian sockets-laws fixed_clock (λ j w. refl) uses (config_of node_a)
      two_signals

-- The backend starts on this system, with the handle that the system gives it.
started : (Udp.start sockets (Udp.make sockets (config_of node_a) two_signals)).1.socket ≡ opened
unfolding Udp.start Udp.make Udp.configure_socket linux_sockets Linux.open_socket Linux.close
    Linux.is_valid Linux.initial Linux.set_reuse_addr Linux.set_broadcast Linux.set_recv_timeout
    Linux.set_send_timeout Linux.bind Linux.bind_open Linux.make_sockaddr Text.c_str Config.is_valid
    Config.is_positive
started = refl
