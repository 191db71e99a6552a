-- ===== src/Platform/Windows/Laws.antt =====
-- The Windows socket keeps the promises of the socket interface.
use discovery.Base.{
  ℕ, ◌≤◌, ◌≡◌, refl, Option-cases, Bool, true, false, Bool-cases, inl, inr, length, take, arith,
  if◌then◌else◌,
}
use discovery.Base.{length-take-le}
use discovery.Base.Int.{ℤ, same_ℤ_iff}
use discovery.Base.Text.{Bytes}
use discovery.External.Time.{Durations}
use discovery.External.System.{
  SockAddr, so_reuseaddr, so_broadcast, so_rcvtimeo, so_sndtimeo, Inet, Winsock, WinsockLaws,
}
use discovery.Core.Datagram
use discovery.Core.Datagram.{Datagram}
use discovery.Platform.{UdpSockets, UdpSocketLaws, Owns}
use discovery.Platform.Ownership.{Owns-released, Owns-none, Owns-kept, Owns-acquired, Owns-closed}
use discovery.Platform.Windows
use discovery.Platform.Windows.{UdpSocket}

module _ {A W D : Type 0} ⦃ds : Durations D⦄ (inet : Inet A) (os : Winsock A W) where
  unfoldable pub windows_sockets : UdpSockets UdpSocket W D
  windows_sockets = record {
    closed = Windows.initial os;
    is_valid = Windows.is_valid os;
    handle = λ s. s.socket;
    open_socket = Windows.open_socket os;
    bind = Windows.bind inet os;
    send_datagram = Windows.send_datagram inet os;
    recv_datagram = Windows.recv_datagram inet os;
    close = Windows.close os;
    set_reuse_addr = Windows.set_reuse_addr os;
    set_broadcast = Windows.set_broadcast os;
    set_recv_timeout = Windows.set_recv_timeout os;
    set_send_timeout = Windows.set_send_timeout os;
  }

module _ {A W : Type 0} {os : Winsock A W} {is_open : ℤ → W → Bool}
    (laws : WinsockLaws os is_open) where
  abbrev Holds : (ℤ → Bool) → UdpSocket → W → Type 0
  Holds base s w = Owns is_open base (Windows.is_valid os s) s.socket w

  close_invalid : (s : UdpSocket) (w : W) → Windows.is_valid os (Windows.close os s w).0 ≡ false
  unfolding Windows.close Windows.is_valid
  close_invalid s w = ground arith

  -- After `close` exactly the other handles are open.
  close_table :
      (base : ℤ → Bool) (s : UdpSocket) (w : W)
      → Holds base s w
      → (j : ℤ) → is_open j (Windows.close os s w).1 ≡ base j
  unfolding Windows.close
  close_table base s w h j = elim (Bool-cases (Windows.is_valid os s)) [
    | inl on ↦ rw on (Owns-closed on (λ i. laws.closesocket_open i s.socket w) h j)
    | inr off ↦ rw off (Owns-released off h j)
  ]

  close-Holds :
      (base : ℤ → Bool) (s : UdpSocket) (w : W)
      → Holds base s w
      → Holds base (Windows.close os s w).0 (Windows.close os s w).1
  close-Holds base s w h = Owns-none (close_invalid s w) (close_table base s w h)

  open-Holds :
      (base : ℤ → Bool) (s : UdpSocket) (w : W)
      → Holds base s w
      → Holds base (Windows.open_socket os s w).1 (Windows.open_socket os s w).2
  unfolding Windows.open_socket Windows.is_valid
  open-Holds base s w h =
      let w₁ : W = (Windows.close os s w).1 in
      Owns-acquired w₁ (close_table base s w h) (λ j. laws.socket_open j w₁)
        (λ on. laws.socket_fresh w₁ (ground arith))

module _ {A W : Type 0} (inet : Inet A) {os : Winsock A W} {is_open : ℤ → W → Bool}
    (laws : WinsockLaws os is_open) where
  bind_open_socket :
      (host : Bytes) (port : ℕ) (s : UdpSocket) (w : W)
      → (Windows.bind_open inet os host port s w).1 ≡ s
  unfolding Windows.bind_open
  bind_open_socket host port s w = ground arith

  bind_open_table :
      (j : ℤ) (host : Bytes) (port : ℕ) (s : UdpSocket) (w : W)
      → is_open j (Windows.bind_open inet os host port s w).2 ≡ is_open j w
  unfolding Windows.bind_open
  bind_open_table j host port s w = elim (Option-cases (Windows.make_sockaddr inet host port)) [
    | inl e ↦ rw (Windows.bind_open, e)
    | inr (addr, e) ↦ rw (Windows.bind_open, e) (laws.bind_open j s.socket addr w)
  ]

  bind_open-Holds :
      (base : ℤ → Bool) (host : Bytes) (port : ℕ) (s : UdpSocket) (w : W)
      → Holds laws base s w
      → Holds laws base
          (Windows.bind_open inet os host port s w).1
          (Windows.bind_open inet os host port s w).2
  bind_open-Holds base host port s w h =
      rw (bind_open_socket host port s w) (Owns-kept (λ j. bind_open_table j host port s w) h)

  bind-Holds :
      (base : ℤ → Bool) (host : Bytes) (port : ℕ) (s : UdpSocket) (w : W)
      → Holds laws base s w
      → Holds laws base
          (Windows.bind inet os host port s w).1
          (Windows.bind inet os host port s w).2
  unfolding Windows.bind
  bind-Holds base host port s w h = elim (Bool-cases (Windows.is_valid os s)) [
    | inl on ↦ rw (Windows.bind, on) (bind_open-Holds base host port s w h)
    | inr off ↦
        let (opened, s', w') = Windows.open_socket os s w in
        let h' : Holds laws base s' w' = open-Holds laws base s w h in
        elim (Bool-cases opened) [
          | inl yes' ↦ rw (Windows.bind, off, yes') (bind_open-Holds base host port s' w' h')
          | inr no' ↦ rw (Windows.bind, off, no') h'
        ]
  ]

  bind_valid :
      (host : Bytes) (port : ℕ) (s : UdpSocket) (w : W)
      → Windows.is_valid os s ≡ true
      → (Windows.bind inet os host port s w).1 ≡ s
  unfolding Windows.bind
  bind_valid host port s w on = rw (Windows.bind, on) (bind_open_socket host port s w)

  send_table :
      (j : ℤ) (d : Datagram) (s : UdpSocket) (w : W)
      → is_open j (Windows.send_datagram inet os d s w).1 ≡ is_open j w
  unfolding Windows.send_datagram Windows.send_to
  send_table j d s w = elim (Option-cases (Windows.make_sockaddr inet d.host d.port)) [
    | inl e ↦ rw (Windows.send_datagram, Windows.send_to, e) (ground arith)
    | inr (addr, e) ↦
        rw (Windows.send_datagram, Windows.send_to, e)
          (ground (
            arith,
            laws.sendto_open j s.socket (take (Windows.chunk_size (length d.payload)) d.payload)
                addr w,
          ))
  ]

  recv_table :
      (j : ℤ) (max_size : ℕ) (s : UdpSocket) (w : W)
      → is_open j (Windows.recv_datagram inet os max_size s w).1 ≡ is_open j w
  unfolding Windows.recv_datagram
  recv_table j max_size s w =
      ground (arith, laws.recvfrom_open j s.socket (Windows.chunk_size max_size) w)

  send_size :
      (d : Datagram) (s : UdpSocket) (w : W)
      → (Windows.send_datagram inet os d s w).0 ≤ length d.payload
  unfolding Windows.send_datagram Windows.send_to
  send_size d s w = elim (Option-cases (Windows.make_sockaddr inet d.host d.port)) [
    | inl e ↦ rw (Windows.send_datagram, Windows.send_to, e) (ground arith)
    | inr (addr, e) ↦
        let chunk : Bytes = take (Windows.chunk_size (length d.payload)) d.payload in
        elim (Option-cases (os.sendto s.socket chunk addr w).0) [
          | inl f ↦ rw (Windows.send_datagram, Windows.send_to, e, f) (ground arith)
          | inr (n, f) ↦
              rw (Windows.send_datagram, Windows.send_to, e, f)
                (ground (
                  arith,
                  laws.sendto_size s.socket chunk addr w n f,
                  length-take-le (Windows.chunk_size (length d.payload)) d.payload,
                ))
        ]
  ]

  received_size : (r : Bytes × SockAddr A) → length (Windows.received inet r).payload ≤ length r.0
  unfolding Windows.received Datagram.initial
  received_size r = ground arith

  chunk_size-le : (n : ℕ) → Windows.chunk_size n ≤ n
  unfolding Windows.chunk_size
  chunk_size-le n = ground arith

  recv_size :
      (max_size : ℕ) (s : UdpSocket) (w : W)
      → length (Windows.recv_datagram inet os max_size s w).0.payload ≤ max_size
  unfolding Windows.recv_datagram Datagram.initial
  recv_size max_size s w =
      let room : ℕ = Windows.chunk_size max_size in
      elim (Option-cases (os.recvfrom s.socket room w).0) [
        | inl f ↦ rw (Windows.recv_datagram, f) (ground arith)
        | inr (r, f) ↦
            rw (Windows.recv_datagram, f)
              (ground (
                arith,
                received_size r,
                laws.recvfrom_size s.socket room w r f,
                chunk_size-le max_size,
              ))
      ]

module _ {A W D : Type 0} ⦃ds : Durations D⦄ (inet : Inet A) {os : Winsock A W}
    {is_open : ℤ → W → Bool} (laws : WinsockLaws os is_open) where
  -- Over Winsock calls that keep their laws, the Windows socket keeps the promises of the socket
  -- interface: a new and a closed socket are invalid, open returns whether the socket is then
  -- valid, and bind keeps a valid socket; a send returns no more than the payload's length and a
  -- receive brings no more than it is given room for; open, bind and close open and close no
  -- handle but the socket's own and never lose one; and sends, receives and options leave the open
  -- handles alone.
  pub windows_sockets-UdpSocketLaws : UdpSocketLaws (windows_sockets {D = D} inet os) is_open
  unfolding windows_sockets Windows.set_reuse_addr Windows.set_broadcast Windows.set_recv_timeout
      Windows.set_send_timeout Windows.initial Windows.is_valid Windows.open_socket
  windows_sockets-UdpSocketLaws = record {
    closed_invalid = ground (arith, same_ℤ_iff os.invalid_socket os.invalid_socket);
    close_invalid = close_invalid laws;
    open_result = λ s w. refl;
    bind_valid = bind_valid inet laws;
    send_size = send_size inet laws;
    recv_size = recv_size inet laws;
    open-Holds = open-Holds laws;
    bind-Holds = bind-Holds inet laws;
    close-Holds = close-Holds laws;
    send_open = send_table inet laws;
    recv_open = recv_table inet laws;
    reuse_open = λ j on s w.
        ground (arith, laws.setsockopt_open j s.socket (so_reuseaddr (if on then 1 else 0)) w);
    broadcast_open = λ j on s w.
        ground (arith, laws.setsockopt_open j s.socket (so_broadcast (if on then 1 else 0)) w);
    recv_timeout_open = λ j d s w. ground (
      arith,
      laws.setsockopt_open j s.socket (so_rcvtimeo (Windows.make_timeout_ms (ds.millis d))) w,
    );
    send_timeout_open = λ j d s w. ground (
      arith,
      laws.setsockopt_open j s.socket (so_sndtimeo (Windows.make_timeout_ms (ds.millis d))) w,
    );
  }
