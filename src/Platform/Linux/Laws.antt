-- ===== src/Platform/Linux/Laws.antt =====
-- The Linux socket keeps the promises of the socket interface.
use discovery.Base.{
  ℕ, suc, ◌≤◌, ◌≡◌, refl, Option-cases, Bool, true, false, Bool-cases, inl, inr, length, arith,
  if◌then◌else◌,
}
use discovery.Base.Int.{ℤ}
use discovery.Base.Text.{Bytes}
use discovery.External.Time.{Durations}
use discovery.External.System.{
  SockAddr, so_reuseaddr, so_broadcast, so_rcvtimeo, so_sndtimeo, Outcome, Inet, Posix, PosixLaws,
  Outcome-cases,
}
use discovery.Core.Datagram
use discovery.Core.Datagram.{Datagram}
use discovery.Platform.{UdpSockets, UdpSocketLaws, Owns}
use discovery.Platform.Ownership.{Owns-released, Owns-none, Owns-kept, Owns-acquired, Owns-closed}
use discovery.Platform.Linux
use discovery.Platform.Linux.{UdpSocket, is_valid, retry}
use discovery.Platform.Linux.Retries.{retry_table, retry_done}

module _ {A W D : Type 0} ⦃ds : Durations D⦄ (inet : Inet A) (os : Posix A W) where
  unfoldable pub linux_sockets : UdpSockets UdpSocket W D
  linux_sockets = record {
    closed = Linux.initial;
    is_valid = Linux.is_valid;
    handle = λ s. s.fd;
    open_socket = Linux.open_socket os;
    bind = Linux.bind inet os;
    send_datagram = Linux.send_datagram inet os;
    recv_datagram = Linux.recv_datagram inet os;
    close = Linux.close os;
    set_reuse_addr = Linux.set_reuse_addr os;
    set_broadcast = Linux.set_broadcast os;
    set_recv_timeout = Linux.set_recv_timeout os;
    set_send_timeout = Linux.set_send_timeout os;
  }

module _ {A W : Type 0} {os : Posix A W} {is_open : ℤ → W → Bool}
    (laws : PosixLaws os is_open) where
  abbrev Holds : (ℤ → Bool) → UdpSocket → W → Type 0
  Holds base s w = Owns is_open base (Linux.is_valid s) s.fd w

  close_invalid : (s : UdpSocket) (w : W) → Linux.is_valid (Linux.close os s w).0 ≡ false
  unfolding Linux.close Linux.is_valid
  close_invalid s w = ground arith

  -- After `close` exactly the other handles are open.
  close_table :
      (base : ℤ → Bool) (s : UdpSocket) (w : W)
      → Holds base s w
      → (j : ℤ) → is_open j (Linux.close os s w).1 ≡ base j
  unfolding Linux.close
  close_table base s w h j = elim (Bool-cases (Linux.is_valid s)) [
    | inl on ↦ rw on (Owns-closed on (λ i. laws.close_open i s.fd w) h j)
    | inr off ↦ rw off (Owns-released off h j)
  ]

  close-Holds :
      (base : ℤ → Bool) (s : UdpSocket) (w : W)
      → Holds base s w
      → Holds base (Linux.close os s w).0 (Linux.close os s w).1
  close-Holds base s w h = Owns-none (close_invalid s w) (close_table base s w h)

  open-Holds :
      (base : ℤ → Bool) (s : UdpSocket) (w : W)
      → Holds base s w
      → Holds base (Linux.open_socket os s w).1 (Linux.open_socket os s w).2
  unfolding Linux.open_socket Linux.is_valid
  open-Holds base s w h =
      let w₁ : W = (Linux.close os s w).1 in
      Owns-acquired w₁ (close_table base s w h) (λ j. laws.socket_open j w₁) (laws.socket_fresh w₁)

module _ {A W : Type 0} (inet : Inet A) {os : Posix A W} {is_open : ℤ → W → Bool}
    (laws : PosixLaws os is_open) where
  bind_open_socket :
      (host : Bytes) (port : ℕ) (s : UdpSocket) (w : W)
      → (Linux.bind_open inet os host port s w).1 ≡ s
  unfolding Linux.bind_open
  bind_open_socket host port s w = ground arith

  bind_open_table :
      (j : ℤ) (host : Bytes) (port : ℕ) (s : UdpSocket) (w : W)
      → is_open j (Linux.bind_open inet os host port s w).2 ≡ is_open j w
  unfolding Linux.bind_open
  bind_open_table j host port s w = elim (Option-cases (Linux.make_sockaddr inet host port)) [
    | inl e ↦ rw (Linux.bind_open, e)
    | inr (addr, e) ↦ rw (Linux.bind_open, e) (laws.bind_open j s.fd addr w)
  ]

  bind_open-Holds :
      (base : ℤ → Bool) (host : Bytes) (port : ℕ) (s : UdpSocket) (w : W)
      → Holds laws base s w
      → Holds laws base
          (Linux.bind_open inet os host port s w).1
          (Linux.bind_open inet os host port s w).2
  bind_open-Holds base host port s w h =
      rw (bind_open_socket host port s w) (Owns-kept (λ j. bind_open_table j host port s w) h)

  bind-Holds :
      (base : ℤ → Bool) (host : Bytes) (port : ℕ) (s : UdpSocket) (w : W)
      → Holds laws base s w
      → Holds laws base (Linux.bind inet os host port s w).1 (Linux.bind inet os host port s w).2
  unfolding Linux.bind
  bind-Holds base host port s w h = elim (Bool-cases (Linux.is_valid s)) [
    | inl on ↦ rw (Linux.bind, on) (bind_open-Holds base host port s w h)
    | inr off ↦
        let (opened, s', w') = Linux.open_socket os s w in
        let h' : Holds laws base s' w' = open-Holds laws base s w h in
        elim (Bool-cases opened) [
          | inl yes' ↦ rw (Linux.bind, off, yes') (bind_open-Holds base host port s' w' h')
          | inr no' ↦ rw (Linux.bind, off, no') h'
        ]
  ]

  bind_valid :
      (host : Bytes) (port : ℕ) (s : UdpSocket) (w : W)
      → Linux.is_valid s ≡ true
      → (Linux.bind inet os host port s w).1 ≡ s
  unfolding Linux.bind
  bind_valid host port s w on = rw (Linux.bind, on) (bind_open_socket host port s w)

  send_table :
      (j : ℤ) (d : Datagram) (s : UdpSocket) (w : W)
      → is_open j (Linux.send_datagram inet os d s w).1 ≡ is_open j w
  unfolding Linux.send_datagram Linux.send_to
  send_table j d s w = elim (Option-cases (Linux.make_sockaddr inet d.host d.port)) [
    | inl e ↦ rw (Linux.send_datagram, Linux.send_to, e) (ground arith)
    | inr (addr, e) ↦
        rw (Linux.send_datagram, Linux.send_to, e)
          (ground (
            arith,
            retry_table (os.sendto s.fd d.payload addr)
                (λ i v. laws.sendto_open i s.fd d.payload addr v) j (suc (os.signals w)) w,
          ))
  ]

  recv_table :
      (j : ℤ) (max_size : ℕ) (s : UdpSocket) (w : W)
      → is_open j (Linux.recv_datagram inet os max_size s w).1 ≡ is_open j w
  unfolding Linux.recv_datagram
  recv_table j max_size s w = ground (
    arith,
    retry_table (os.recvfrom s.fd max_size) (λ i v. laws.recvfrom_open i s.fd max_size v) j
        (suc (os.signals w)) w,
  )

  send_size :
      (d : Datagram) (s : UdpSocket) (w : W)
      → (Linux.send_datagram inet os d s w).0 ≤ length d.payload
  unfolding Linux.send_datagram Linux.send_to
  send_size d s w = elim (Option-cases (Linux.make_sockaddr inet d.host d.port)) [
    | inl e ↦ rw (Linux.send_datagram, Linux.send_to, e) (ground arith)
    | inr (addr, e) ↦
        let call : W → Outcome ℕ × W = os.sendto s.fd d.payload addr in
        elim (Outcome-cases (retry (suc (os.signals w)) call w).0) [
          | inl (n, f) ↦
              let small : n ≤ length d.payload =
                retry_done call (λ k. k ≤ length d.payload)
                  (λ v k. laws.sendto_size s.fd d.payload addr v k) (suc (os.signals w)) w n f in
              rw (Linux.send_datagram, Linux.send_to, e, f) (ground arith)
          | inr (inl f) ↦ rw (Linux.send_datagram, Linux.send_to, e, f) (ground arith)
          | inr (inr f) ↦ rw (Linux.send_datagram, Linux.send_to, e, f) (ground arith)
        ]
  ]

  received_size : (r : Bytes × SockAddr A) → length (Linux.received inet r).payload ≤ length r.0
  unfolding Linux.received Datagram.initial
  received_size r = ground arith

  recv_size :
      (max_size : ℕ) (s : UdpSocket) (w : W)
      → length (Linux.recv_datagram inet os max_size s w).0.payload ≤ max_size
  unfolding Linux.recv_datagram Datagram.initial
  recv_size max_size s w =
      let call : W → Outcome (Bytes × SockAddr A) × W = os.recvfrom s.fd max_size in
      elim (Outcome-cases (retry (suc (os.signals w)) call w).0) [
        | inl (r, f) ↦
            let small : length r.0 ≤ max_size =
              retry_done call (λ q. length q.0 ≤ max_size)
                (λ v q. laws.recvfrom_size s.fd max_size v q) (suc (os.signals w)) w r f in
            rw (Linux.recv_datagram, f) (ground (arith, received_size r))
        | inr (inl f) ↦ rw (Linux.recv_datagram, f) (ground arith)
        | inr (inr f) ↦ rw (Linux.recv_datagram, f) (ground arith)
      ]

module _ {A W D : Type 0} ⦃ds : Durations D⦄ (inet : Inet A) {os : Posix A W}
    {is_open : ℤ → W → Bool} (laws : PosixLaws os is_open) where
  -- Over POSIX calls that keep their laws, the Linux socket keeps the promises of the socket
  -- interface: a new and a closed socket are invalid, open returns whether the socket is then
  -- valid, and bind keeps a valid socket; a send returns no more than the payload's length and a
  -- receive brings no more than it is given room for; open, bind and close open and close no
  -- handle but the socket's own and never lose one; and sends, receives and options leave the open
  -- handles alone.
  pub linux_sockets-UdpSocketLaws : UdpSocketLaws (linux_sockets {D = D} inet os) is_open
  unfolding linux_sockets Linux.set_reuse_addr Linux.set_broadcast Linux.set_recv_timeout
      Linux.set_send_timeout Linux.initial Linux.is_valid Linux.open_socket
  linux_sockets-UdpSocketLaws = record {
    closed_invalid = refl;
    close_invalid = close_invalid laws;
    open_result = λ s w. refl;
    bind_valid = bind_valid inet laws;
    send_size = send_size inet laws;
    recv_size = recv_size inet laws;
    open-Holds = open-Holds laws;
    bind-Holds = bind-Holds inet laws;
    close-Holds = close-Holds laws;
    send_open = send_table inet laws;
    recv_open = recv_table inet laws;
    reuse_open = λ j on s w.
        ground (arith, laws.setsockopt_open j s.fd (so_reuseaddr (if on then 1 else 0)) w);
    broadcast_open = λ j on s w.
        ground (arith, laws.setsockopt_open j s.fd (so_broadcast (if on then 1 else 0)) w);
    recv_timeout_open = λ j d s w.
        ground
          (arith, laws.setsockopt_open j s.fd (so_rcvtimeo (Linux.make_timeval (ds.millis d))) w);
    send_timeout_open = λ j d s w.
        ground
          (arith, laws.setsockopt_open j s.fd (so_sndtimeo (Linux.make_timeval (ds.millis d))) w);
  }
