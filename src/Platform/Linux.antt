-- ===== src/Platform/Linux.antt =====
-- platform/linux/UdpSocket.cpp and include/…/platform/linux/UdpSocket.hpp.
pub mod Retries
pub mod Laws
use discovery.Base.{
  ℕ, zero, suc, ◌*◌, ◌/◌, ◌%◌, ◌==◌, Option, none, some, Bool, true, false, not, ◌||◌, is_empty,
  length, if◌then◌else◌,
}
use discovery.Base.Int.{ℤ, pos, negsuc, leb_ℤ}
use discovery.Base.Text.{Bytes, c_str}
use discovery.External.Time.{Durations}
use discovery.External.System.{
  SockAddr, Timeval, SocketOption, so_reuseaddr, so_broadcast, so_rcvtimeo, so_sndtimeo, Outcome,
  done, interrupted, failed, Inet, Posix,
}
use discovery.Core.Datagram
use discovery.Core.Datagram.{Datagram}

pub record UdpSocket : Type 0 where
  pub fd : ℤ

-- UdpSocket{}
unfoldable pub initial : UdpSocket
initial = record { fd = negsuc 0 }

-- UdpSocket(fd)
unfoldable pub make : ℤ → UdpSocket
make fd = record { fd = fd }

unfoldable pub is_valid : UdpSocket → Bool
is_valid s = leb_ℤ (pos 0) s.fd

-- UdpSocket(UdpSocket &&): the new socket, and the other one after it.
unfoldable pub move_construct : UdpSocket → UdpSocket × UdpSocket
move_construct other = (record { fd = other.fd }, record { fd = negsuc 0 })

unfoldable pub make_timeval : ℤ → Timeval
make_timeval (pos millis) =
    if millis == 0
    then record { tv_sec = 0; tv_usec = 0 }
    else record { tv_sec = millis / 1000; tv_usec = millis % 1000 * 1000 }
make_timeval (negsuc n) = record { tv_sec = 0; tv_usec = 0 }

module _ {A : Type 0} (inet : Inet A) where
  unfoldable pub make_sockaddr : Bytes → ℕ → Option (SockAddr A)
  make_sockaddr host port = elim (inet.inet_pton (c_str host)) [
    | none ↦ none
    | some address ↦ some (record { address = address; port = inet.htons port })
  ]

  -- What `recv_datagram` makes of the bytes and their sender.
  unfoldable pub received : Bytes × SockAddr A → Datagram
  received (payload, addr) =
      if is_empty payload then Datagram.initial else elim (inet.inet_ntop addr.address) [
        | none ↦ Datagram.initial
        | some ip ↦ record { host = ip; port = inet.ntohs addr.port; payload = payload }
      ]

module _ {R W : Type 0} where
  -- `for (;;)` with `continue` on EINTR, on fuel.
  unfoldable pub retry : ℕ → (W → Outcome R × W) → W → Outcome R × W
  retry zero call w = (interrupted, w)
  retry (suc fuel) call w = elim (call w).0 [
    | interrupted ↦ retry fuel call (call w).1
    | failed ↦ (failed, (call w).1)
    | done r ↦ (done r, (call w).1)
  ]

module _ {A W : Type 0} (os : Posix A W) where
  unfoldable pub close : UdpSocket → W → UdpSocket × W
  close s w = if not (is_valid s) then (s, w) else (record { fd = negsuc 0 }, os.close s.fd w)

  -- operator=(UdpSocket &&): this socket, the other, and the system after it. The flag is whether
  -- the two are one object.
  unfoldable pub move_assign : Bool → UdpSocket → UdpSocket → W → UdpSocket × UdpSocket × W
  move_assign same this other w =
      if same
      then (this, other, w)
      else (record { fd = other.fd }, record { fd = negsuc 0 }, (close this w).1)

  unfoldable pub open_socket : UdpSocket → W → Bool × UdpSocket × W
  open_socket s w =
      let (fd, w') = os.socket (close s w).1 in (leb_ℤ (pos 0) fd, record { fd = fd }, w')

  -- The value of a flag option.
  abbrev flag : Bool → ℕ
  flag enabled = if enabled then 1 else 0

  unfoldable pub set_reuse_addr : Bool → UdpSocket → W → Bool × W
  set_reuse_addr enabled s w =
      if not (is_valid s) then (false, w) else os.setsockopt s.fd (so_reuseaddr (flag enabled)) w

  unfoldable pub set_broadcast : Bool → UdpSocket → W → Bool × W
  set_broadcast enabled s w =
      if not (is_valid s) then (false, w) else os.setsockopt s.fd (so_broadcast (flag enabled)) w

module _ {A W : Type 0} (inet : Inet A) (os : Posix A W) where
  -- The part of `bind` behind its guard.
  unfoldable pub bind_open : Bytes → ℕ → UdpSocket → W → Bool × UdpSocket × W
  bind_open host port s w = elim (make_sockaddr inet host port) [
    | none ↦ (false, s, w)
    | some addr ↦ let (bound, w') = os.bind s.fd addr w in (bound, s, w')
  ]

  unfoldable pub bind : Bytes → ℕ → UdpSocket → W → Bool × UdpSocket × W
  bind host port s w =
      if is_valid s
      then bind_open host port s w
      else let (opened, s', w') = open_socket os s w in
        if not opened then (false, s', w') else bind_open host port s' w'

  -- `none` is the null pointer.
  unfoldable pub send_to : Bytes → ℕ → Option Bytes → UdpSocket → W → ℕ × W
  send_to host port none s w = (0, w)
  send_to host port (some data') s w =
      if not (is_valid s) || is_empty data' then (0, w) else elim (make_sockaddr inet host port) [
        | none ↦ (0, w)
        | some addr ↦
            let (outcome, w') = retry (suc (os.signals w)) (os.sendto s.fd data' addr) w in
            elim outcome [ done sent ↦ (sent, w') | interrupted ↦ (0, w') | failed ↦ (0, w') ]
      ]

  unfoldable pub send_datagram : Datagram → UdpSocket → W → ℕ × W
  send_datagram d s w =
      if not (Datagram.is_valid d) then (0, w) else send_to d.host d.port (some d.payload) s w

  unfoldable pub recv_datagram : ℕ → UdpSocket → W → Datagram × W
  recv_datagram max_size s w =
      if not (is_valid s) || max_size == 0
      then (Datagram.initial, w)
      else let (outcome, w') = retry (suc (os.signals w)) (os.recvfrom s.fd max_size) w in
        elim outcome [
          | done r ↦ (received inet r, w')
          | interrupted ↦ (Datagram.initial, w')
          | failed ↦ (Datagram.initial, w')
        ]

module _ {A W D : Type 0} ⦃ds : Durations D⦄ (os : Posix A W) where
  unfoldable pub set_recv_timeout : D → UdpSocket → W → Bool × W
  set_recv_timeout timeout s w =
      if not (is_valid s)
      then (false, w)
      else os.setsockopt s.fd (so_rcvtimeo (make_timeval (ds.millis timeout))) w

  unfoldable pub set_send_timeout : D → UdpSocket → W → Bool × W
  set_send_timeout timeout s w =
      if not (is_valid s)
      then (false, w)
      else os.setsockopt s.fd (so_sndtimeo (make_timeval (ds.millis timeout))) w

module _ {A W : Type 0} (D : Type 0) ⦃ds : Durations D⦄ (os : Posix A W) where
  -- The argument is a uint64, cast to the type of a duration's count.
  unfoldable pub set_recv_timeout_ms : ℕ → UdpSocket → W → Bool × W
  set_recv_timeout_ms timeout_ms = set_recv_timeout os (ds.from_millis (ds.cast_rep timeout_ms))

  unfoldable pub set_send_timeout_ms : ℕ → UdpSocket → W → Bool × W
  set_send_timeout_ms timeout_ms = set_send_timeout os (ds.from_millis (ds.cast_rep timeout_ms))
