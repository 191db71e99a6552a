-- ===== src/Network/Windows.antt =====
-- The Windows socket carries what the system's datagrams carry.
use discovery.Base.{
  ℕ, ◌++◌, length, take, drop, take-append-drop, ◌==◌, ◌≡◌, refl, sym, ap, subst, ◌∙◌, inl, inr,
  some, true, is_empty, not, ◌||◌, if◌then◌else◌, Bool-cases, Option-cases, arith,
}
use mathlib.Core.List.{append_assoc}
use discovery.Base.Text.{Bytes}
use discovery.External.Carrying.{IsStart, IsNoNews, IsNewsOf, WinsockCarries}
use discovery.External.System.{
  SockAddr, Inet, Winsock, so_reuseaddr, so_broadcast, so_rcvtimeo, so_sndtimeo,
}
use discovery.External.Time.{Durations}
use discovery.Core.Datagram
use discovery.Core.Datagram.{Datagram}
use discovery.Platform.Windows
use discovery.Platform.Windows.{UdpSocket, received, chunk_size}
use discovery.Platform.Windows.Laws.{windows_sockets}
use discovery.Network.Carried.{Carries}

module _ {A W : Type 0} (inet : Inet A) {os : Winsock A W} {carried : Bytes → W → Type 0}
    (net : WinsockCarries os carried) where
  close_news : (s : UdpSocket) (w : W) → IsNoNews carried w (Windows.close os s w).1
  unfolding Windows.close
  close_news s w p h = ground (arith, h, net.closesocket_news s.socket w p)

  open_news : (s : UdpSocket) (w : W) → IsNoNews carried w (Windows.open_socket os s w).2
  unfolding Windows.open_socket
  open_news s w p h = close_news s w p (net.socket_news (Windows.close os s w).1 p h)

  bind_open_news :
      (host : Bytes) (port : ℕ) (s : UdpSocket) (w : W)
      → IsNoNews carried w (Windows.bind_open inet os host port s w).2
  unfolding Windows.bind_open
  bind_open_news host port s w p h = elim (Option-cases (Windows.make_sockaddr inet host port)) [
    | inl e ↦ rw (Windows.bind_open, e) at h
    | inr (addr, e) ↦ net.bind_news s.socket addr w p (rw (Windows.bind_open, e) at h)
  ]

  bind_news :
      (host : Bytes) (port : ℕ) (s : UdpSocket) (w : W)
      → IsNoNews carried w (Windows.bind inet os host port s w).2
  unfolding Windows.bind
  bind_news host port s w p h =
      let (opened, s', w') = Windows.open_socket os s w in
      ground (
        arith,
        h,
        bind_open_news host port s w p,
        bind_open_news host port s' w' p,
        open_news s w p,
      )

  sendto_news :
      (data' : Bytes) (addr : SockAddr A) (s : UdpSocket) (n : ℕ) (w : W)
      → IsNewsOf carried data' w (os.sendto s.socket (take n data') addr w).1
  sendto_news data' addr s n w p h = elim (net.sendto_news s.socket (take n data') addr w p h) [
    | inl before ↦ inl before
    | inr (rest, new) ↦ inr (
      rest ++ drop n data',
      sym (take-append-drop n data')
          ∙ ap (λ (x : Bytes). x ++ drop n data') new
          ∙ append_assoc p rest (drop n data'),
    )
  ]

  send_to_news :
      (host data' : Bytes) (port : ℕ) (s : UdpSocket) (w : W)
      → IsNewsOf carried data' w (Windows.send_to inet os host port (some data') s w).1
  unfolding Windows.send_to
  send_to_news host data' port s w p h =
      elim (Bool-cases (not (Windows.is_valid os s) || is_empty data')) [
        | inl shut ↦ inl (rw (Windows.send_to, shut) at h)
        | inr open_now ↦ elim (Option-cases (Windows.make_sockaddr inet host port)) [
          | inl e ↦ inl (rw (Windows.send_to, open_now, e) at h)
          | inr (addr, e) ↦
              sendto_news data' addr s (chunk_size (length data')) w p
                (ground (arith, h, open_now, e))
        ]
      ]

  send_news :
      (d : Datagram) (s : UdpSocket) (w : W)
      → IsNewsOf carried d.payload w (Windows.send_datagram inet os d s w).1
  unfolding Windows.send_datagram
  send_news d s w p h = ground (arith, h, send_to_news d.host d.payload d.port s w p)

  recv_news :
      (size : ℕ) (s : UdpSocket) (w : W)
      → IsNoNews carried w (Windows.recv_datagram inet os size s w).1
  unfolding Windows.recv_datagram
  recv_news size s w p h = ground (arith, h, net.recvfrom_news s.socket (chunk_size size) w p)

  received_payload :
      (r : Bytes × SockAddr A)
      → Datagram.is_valid (received inet r) ≡ true
      → (received inet r).payload ≡ r.0
  unfolding Windows.received Datagram.is_valid Datagram.initial
  received_payload r h = ground (arith, h)

  recv_brings :
      (size : ℕ) (s : UdpSocket) (w : W)
      → let d = (Windows.recv_datagram inet os size s w).0 in
        Datagram.is_valid d ≡ true → (p : Bytes) × carried p w × IsStart d.payload p
  unfolding Windows.recv_datagram Datagram.is_valid Datagram.initial
  recv_brings size s w h = elim (Bool-cases (not (Windows.is_valid os s) || size == 0)) [
    | inl shut ↦ absurd (let no = rw (Windows.recv_datagram, shut) at h in ground (arith, no))
    | inr open_now ↦ elim (Option-cases (os.recvfrom s.socket (chunk_size size) w).0) [
      | inl e ↦ absurd (let no = rw (Windows.recv_datagram, open_now, e) at h in ground (arith, no))
      | inr (r, e) ↦
          let got : (Windows.recv_datagram inet os size s w).0 ≡ received inet r =
            rw (Windows.recv_datagram, open_now, e) refl in
          let payload : (Windows.recv_datagram inet os size s w).0.payload ≡ r.0 =
            ap (λ (d : Datagram). d.payload) got ∙ received_payload r (rw got at h) in
          let (p, on_way, cut) = net.recvfrom_brings s.socket (chunk_size size) w r e in
          (p, on_way, subst (λ x. IsStart x p) (sym payload) cut)
    ]
  ]

module _ {A W T D : Type 0} ⦃ds : Durations D⦄ (inet : Inet A) {os : Winsock A W}
    {carried : Bytes → W → Type 0} (net : WinsockCarries os carried) where
  -- On a Winsock that puts nothing on the way but what sendto is given, or a beginning of it, and
  -- brings nothing but what is on the way, or a beginning of it, and with a clock that puts
  -- nothing on the way, the Windows socket does the same: send_datagram, which gives sendto no
  -- more than INT_MAX bytes, puts no payload on the way but the datagram's or a beginning of it, a
  -- valid datagram that recv_datagram returns has a payload on the way or a beginning of one, and
  -- no other operation puts anything on the way.
  pub windows_sockets-Carries :
      (clock : W → T × W)
      → ((w : W) → IsNoNews carried w (clock w).1)
      → Carries (windows_sockets {D = D} inet os) clock carried
  unfolding windows_sockets Windows.set_reuse_addr Windows.set_broadcast Windows.set_recv_timeout
      Windows.set_send_timeout
  windows_sockets-Carries clock quiet = record {
    bytes = net.bytes;
    clock_news = quiet;
    open_news = open_news inet net;
    close_news = close_news inet net;
    bind_news = bind_news inet net;
    reuse_news = λ on s w p h.
        ground (arith, h, net.setsockopt_news s.socket (so_reuseaddr (if on then 1 else 0)) w p);
    broadcast_news = λ on s w p h.
        ground (arith, h, net.setsockopt_news s.socket (so_broadcast (if on then 1 else 0)) w p);
    recv_timeout_news = λ d s w p h. ground (
      arith,
      h,
      net.setsockopt_news s.socket (so_rcvtimeo (Windows.make_timeout_ms (ds.millis d))) w p,
    );
    send_timeout_news = λ d s w p h. ground (
      arith,
      h,
      net.setsockopt_news s.socket (so_sndtimeo (Windows.make_timeout_ms (ds.millis d))) w p,
    );
    recv_news = recv_news inet net;
    send_news = send_news inet net;
    recv_brings = recv_brings inet net;
  }
