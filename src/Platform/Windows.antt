-- ===== src/Platform/Windows.antt =====
-- platform/windows/UdpSocket.cpp and include/…/platform/windows/UdpSocket.hpp.
pub mod Laws
use discovery.Base.{
  ℕ, ◌==◌, Option, none, some, Bool, true, false, not, ◌||◌, is_empty, leb, ltb, length, take,
  if◌then◌else◌,
}
use discovery.Base.Int.{ℤ, pos, negsuc, same_ℤ}
use discovery.Base.Text.{Bytes, c_str}
use discovery.External.Time.{Durations}
use discovery.External.System.{
  SockAddr, SocketOption, so_reuseaddr, so_broadcast, so_rcvtimeo, so_sndtimeo, Inet, Winsock,
}
use discovery.Core.Datagram
use discovery.Core.Datagram.{Datagram}

pub record UdpSocket : Type 0 where
  pub socket : ℤ

-- UdpSocket(socket)
unfoldable pub make : ℤ → UdpSocket
make socket = record { socket = socket }

-- A DWORD; UINT32_MAX is the longest.
unfoldable pub make_timeout_ms : ℤ → ℕ
make_timeout_ms (pos millis) =
    if millis == 0 then 0 else if ltb 4294967295 millis then 4294967295 else millis
make_timeout_ms (negsuc n) = 0

-- Up to INT_MAX.
unfoldable pub chunk_size : ℕ → ℕ
chunk_size remaining = if leb remaining 2147483647 then remaining else 2147483647

module _ {A : Type 0} (inet : Inet A) where
  unfoldable pub make_sockaddr : Bytes → ℕ → Option (SockAddr A)
  make_sockaddr host port = elim (inet.inet_pton (c_str host)) [
    | none ↦ none
    | some address ↦ some (record { address = address; port = inet.htons port })
  ]

  -- What `recv_datagram` makes of the bytes and their sender.
  unfoldable pub received : Bytes × SockAddr A → Datagram
  received (payload, addr) =
      if is_empty payload then Datagram.initial else elim (inet.inet_ntop addr.address) [
        | none ↦ Datagram.initial
        | some ip ↦ record { host = ip; port = inet.ntohs addr.port; payload = payload }
      ]

module _ {A W : Type 0} (os : Winsock A W) where
  -- UdpSocket{}
  unfoldable pub initial : UdpSocket
  initial = record { socket = os.invalid_socket }

  unfoldable pub is_valid : UdpSocket → Bool
  is_valid s = not (same_ℤ s.socket os.invalid_socket)

  -- UdpSocket(UdpSocket &&): the new socket, and the other one after it.
  unfoldable pub move_construct : UdpSocket → UdpSocket × UdpSocket
  move_construct other = (record { socket = other.socket }, record { socket = os.invalid_socket })

  unfoldable pub close : UdpSocket → W → UdpSocket × W
  close s w =
      if not (is_valid s)
      then (s, w)
      else (record { socket = os.invalid_socket }, os.closesocket s.socket w)

  -- operator=(UdpSocket &&): this socket, the other, and the system after it. The flag is whether
  -- the two are one object.
  unfoldable pub move_assign : Bool → UdpSocket → UdpSocket → W → UdpSocket × UdpSocket × W
  move_assign same this other w = if same then (this, other, w) else (
    record { socket = other.socket },
    record { socket = os.invalid_socket },
    (close this w).1,
  )

  unfoldable pub open_socket : UdpSocket → W → Bool × UdpSocket × W
  open_socket s w =
      let (socket, w') = os.socket (close s w).1 in
      (not (same_ℤ socket os.invalid_socket), record { socket = socket }, w')

  -- The value of a flag option.
  abbrev flag : Bool → ℕ
  flag enabled = if enabled then 1 else 0

  unfoldable pub set_reuse_addr : Bool → UdpSocket → W → Bool × W
  set_reuse_addr enabled s w =
      if not (is_valid s)
      then (false, w)
      else os.setsockopt s.socket (so_reuseaddr (flag enabled)) w

  unfoldable pub set_broadcast : Bool → UdpSocket → W → Bool × W
  set_broadcast enabled s w =
      if not (is_valid s)
      then (false, w)
      else os.setsockopt s.socket (so_broadcast (flag enabled)) w

module _ {A W : Type 0} (inet : Inet A) (os : Winsock A W) where
  -- The part of `bind` behind its guard.
  unfoldable pub bind_open : Bytes → ℕ → UdpSocket → W → Bool × UdpSocket × W
  bind_open host port s w = elim (make_sockaddr inet host port) [
    | none ↦ (false, s, w)
    | some addr ↦ let (bound, w') = os.bind s.socket addr w in (bound, s, w')
  ]

  unfoldable pub bind : Bytes → ℕ → UdpSocket → W → Bool × UdpSocket × W
  bind host port s w =
      if is_valid os s
      then bind_open host port s w
      else let (opened, s', w') = open_socket os s w in
        if not opened then (false, s', w') else bind_open host port s' w'

  -- `none` is the null pointer. The call is given the first `chunk_size` bytes.
  unfoldable pub send_to : Bytes → ℕ → Option Bytes → UdpSocket → W → ℕ × W
  send_to host port none s w = (0, w)
  send_to host port (some data') s w =
      if not (is_valid os s) || is_empty data'
      then (0, w)
      else elim (make_sockaddr inet host port) [
        | none ↦ (0, w)
        | some addr ↦
            let (outcome, w') =
              os.sendto s.socket (take (chunk_size (length data')) data') addr w in
            elim outcome [ some sent ↦ (sent, w') | none ↦ (0, w') ]
      ]

  unfoldable pub send_datagram : Datagram → UdpSocket → W → ℕ × W
  send_datagram d s w =
      if not (Datagram.is_valid d) then (0, w) else send_to d.host d.port (some d.payload) s w

  unfoldable pub recv_datagram : ℕ → UdpSocket → W → Datagram × W
  recv_datagram max_size s w =
      if not (is_valid os s) || max_size == 0
      then (Datagram.initial, w)
      else let (outcome, w') = os.recvfrom s.socket (chunk_size max_size) w in
        elim outcome [ some r ↦ (received inet r, w') | none ↦ (Datagram.initial, w') ]

module _ {A W D : Type 0} ⦃ds : Durations D⦄ (os : Winsock A W) where
  unfoldable pub set_recv_timeout : D → UdpSocket → W → Bool × W
  set_recv_timeout timeout s w =
      if not (is_valid os s)
      then (false, w)
      else os.setsockopt s.socket (so_rcvtimeo (make_timeout_ms (ds.millis timeout))) w

  unfoldable pub set_send_timeout : D → UdpSocket → W → Bool × W
  set_send_timeout timeout s w =
      if not (is_valid os s)
      then (false, w)
      else os.setsockopt s.socket (so_sndtimeo (make_timeout_ms (ds.millis timeout))) w

module _ {A W : Type 0} (D : Type 0) ⦃ds : Durations D⦄ (os : Winsock A W) where
  -- The argument is a uint64, cast to the type of a duration's count.
  unfoldable pub set_recv_timeout_ms : ℕ → UdpSocket → W → Bool × W
  set_recv_timeout_ms timeout_ms = set_recv_timeout os (ds.from_millis (ds.cast_rep timeout_ms))

  unfoldable pub set_send_timeout_ms : ℕ → UdpSocket → W → Bool × W
  set_send_timeout_ms timeout_ms = set_send_timeout os (ds.from_millis (ds.cast_rep timeout_ms))
