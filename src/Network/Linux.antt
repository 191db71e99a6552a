-- ===== src/Network/Linux.antt =====
-- The Linux socket carries what the system's datagrams carry.
use discovery.Base.{
  ℕ, zero, suc, ◌==◌, ◌≡◌, refl, sym, ap, subst, ◌∙◌, ◌⊎◌, inl, inr, some, true, is_empty, not,
  ◌||◌, if◌then◌else◌, Bool-cases, Option-cases, arith,
}
use discovery.Base.Text.{Bytes}
use discovery.External.Carrying.{IsStart, IsNoNews, IsNewsOf, PosixCarries}
use discovery.External.System.{
  SockAddr, Outcome, Outcome-cases, done, Inet, Posix, so_reuseaddr, so_broadcast, so_rcvtimeo,
  so_sndtimeo,
}
use discovery.External.Time.{Durations}
use discovery.Core.Datagram
use discovery.Core.Datagram.{Datagram}
use discovery.Platform.Linux
use discovery.Platform.Linux.{UdpSocket, retry, received}
use discovery.Platform.Linux.Laws.{linux_sockets}
use discovery.Network.Carried.{Carries}

module _ {R W : Type 0} (call : W → Outcome R × W) (Before : W → Type 0) where
  -- What one call reflects, the retried call does.
  retry_reflects :
      ((w : W) → Before (call w).1 → Before w)
      → (fuel : ℕ) (w : W) → Before (retry fuel call w).1
      → Before w
  unfolding retry
  retry_reflects back zero w h = h
  retry_reflects back (suc fuel) w h = elim (Outcome-cases (call w).0) [
    | inl (r, e) ↦ back w (rw (retry, e) at h)
    | inr (inl e) ↦ back w (retry_reflects back fuel (call w).1 (rw (retry, e) at h))
    | inr (inr e) ↦ back w (rw (retry, e) at h)
  ]

  -- What the retried call brings, one call brought, in a world from which `Before` comes back.
  retry_brings :
      ((w : W) → Before (call w).1 → Before w)
      → (fuel : ℕ) (w : W) (r : R) → (retry fuel call w).0 ≡ done r
      → (v : W) × ((call v).0 ≡ done r) × (Before v → Before w)
  unfolding retry
  retry_brings back zero w r e = cc e
  retry_brings back (suc fuel) w r e = elim (Outcome-cases (call w).0) [
    | inl (q, f) ↦ (w, f ∙ (rw (retry, f) at e), λ h. h)
    | inr (inl f) ↦
        let (v, brought, before) = retry_brings back fuel (call w).1 r (rw (retry, f) at e) in
        (v, brought, λ h. back w (before h))
    | inr (inr f) ↦ cc (rw (retry, f) at e)
  ]

module _ {A W : Type 0} (inet : Inet A) {os : Posix A W} {carried : Bytes → W → Type 0}
    (net : PosixCarries os carried) where
  close_news : (s : UdpSocket) (w : W) → IsNoNews carried w (Linux.close os s w).1
  unfolding Linux.close
  close_news s w p h = ground (arith, h, net.close_news s.fd w p)

  open_news : (s : UdpSocket) (w : W) → IsNoNews carried w (Linux.open_socket os s w).2
  unfolding Linux.open_socket
  open_news s w p h = close_news s w p (net.socket_news (Linux.close os s w).1 p h)

  bind_open_news :
      (host : Bytes) (port : ℕ) (s : UdpSocket) (w : W)
      → IsNoNews carried w (Linux.bind_open inet os host port s w).2
  unfolding Linux.bind_open
  bind_open_news host port s w p h = elim (Option-cases (Linux.make_sockaddr inet host port)) [
    | inl e ↦ rw (Linux.bind_open, e) at h
    | inr (addr, e) ↦ net.bind_news s.fd addr w p (rw (Linux.bind_open, e) at h)
  ]

  bind_news :
      (host : Bytes) (port : ℕ) (s : UdpSocket) (w : W)
      → IsNoNews carried w (Linux.bind inet os host port s w).2
  unfolding Linux.bind
  bind_news host port s w p h =
      let (opened, s', w') = Linux.open_socket os s w in
      ground (
        arith,
        h,
        bind_open_news host port s w p,
        bind_open_news host port s' w' p,
        open_news s w p,
      )

  sendto_news :
      (data' : Bytes) (addr : SockAddr A) (s : UdpSocket) (fuel : ℕ) (w : W)
      → IsNewsOf carried data' w (retry fuel (os.sendto s.fd data' addr) w).1
  sendto_news data' addr s fuel w p h =
      retry_reflects (os.sendto s.fd data' addr) (λ v. carried p v ⊎ IsStart p data')
        (λ v sent. elim sent [
          | inl after ↦ net.sendto_news s.fd data' addr v p after
          | inr new ↦ inr new
        ])
        fuel w (inl h)

  send_to_news :
      (host data' : Bytes) (port : ℕ) (s : UdpSocket) (w : W)
      → IsNewsOf carried data' w (Linux.send_to inet os host port (some data') s w).1
  unfolding Linux.send_to
  send_to_news host data' port s w p h =
      elim (Bool-cases (not (Linux.is_valid s) || is_empty data')) [
        | inl shut ↦ inl (rw (Linux.send_to, shut) at h)
        | inr open_now ↦ elim (Option-cases (Linux.make_sockaddr inet host port)) [
          | inl e ↦ inl (rw (Linux.send_to, open_now, e) at h)
          | inr (addr, e) ↦
              sendto_news data' addr s (suc (os.signals w)) w p (ground (arith, h, open_now, e))
        ]
      ]

  send_news :
      (d : Datagram) (s : UdpSocket) (w : W)
      → IsNewsOf carried d.payload w (Linux.send_datagram inet os d s w).1
  unfolding Linux.send_datagram
  send_news d s w p h = ground (arith, h, send_to_news d.host d.payload d.port s w p)

  recvfrom_back :
      (s : UdpSocket) (size : ℕ) (p : Bytes) (w : W)
      → carried p (os.recvfrom s.fd size w).1
      → carried p w
  recvfrom_back s size p w h = net.recvfrom_news s.fd size w p h

  recv_news :
      (size : ℕ) (s : UdpSocket) (w : W)
      → IsNoNews carried w (Linux.recv_datagram inet os size s w).1
  unfolding Linux.recv_datagram
  recv_news size s w p h = ground (
    arith,
    h,
    retry_reflects (os.recvfrom s.fd size) (carried p) (recvfrom_back s size p) (suc (os.signals w))
        w,
  )

  received_payload :
      (r : Bytes × SockAddr A)
      → Datagram.is_valid (received inet r) ≡ true
      → (received inet r).payload ≡ r.0
  unfolding Linux.received Datagram.is_valid Datagram.initial
  received_payload r h = ground (arith, h)

  recv_brings :
      (size : ℕ) (s : UdpSocket) (w : W)
      → let d = (Linux.recv_datagram inet os size s w).0 in
        Datagram.is_valid d ≡ true → (p : Bytes) × carried p w × IsStart d.payload p
  unfolding Linux.recv_datagram Datagram.is_valid Datagram.initial
  recv_brings size s w h = elim (Bool-cases (not (Linux.is_valid s) || size == 0)) [
    | inl shut ↦ absurd (let no = rw (Linux.recv_datagram, shut) at h in ground (arith, no))
    | inr open_now ↦
        let call : W → Outcome (Bytes × SockAddr A) × W = os.recvfrom s.fd size in
        elim (Outcome-cases (retry (suc (os.signals w)) call w).0) [
          | inl (r, e) ↦
              let got : (Linux.recv_datagram inet os size s w).0 ≡ received inet r =
                rw (Linux.recv_datagram, open_now, e) refl in
              let payload : (Linux.recv_datagram inet os size s w).0.payload ≡ r.0 =
                ap (λ (d : Datagram). d.payload) got ∙ received_payload r (rw got at h) in
              let Brings : W → Type 0 = λ v. (p : Bytes) × carried p v × IsStart r.0 p in
              let (v, brought, before) =
                retry_brings call Brings
                  (λ u (p, on_way, cut). (p, recvfrom_back s size p u on_way, cut))
                  (suc (os.signals w)) w r e in
              let (p, on_way, cut) = before (net.recvfrom_brings s.fd size v r brought) in
              (p, on_way, subst (λ x. IsStart x p) (sym payload) cut)
          | inr (inl e) ↦
              absurd (let no = rw (Linux.recv_datagram, open_now, e) at h in ground (arith, no))
          | inr (inr e) ↦
              absurd (let no = rw (Linux.recv_datagram, open_now, e) at h in ground (arith, no))
        ]
  ]

module _ {A W T D : Type 0} ⦃ds : Durations D⦄ (inet : Inet A) {os : Posix A W}
    {carried : Bytes → W → Type 0} (net : PosixCarries os carried) where
  -- On a system that puts nothing on the way but what sendto is given, or a beginning of it, and
  -- brings nothing but what is on the way, or a beginning of it, and with a clock that puts
  -- nothing on the way, the Linux socket does the same through all its operations and retries:
  -- send_datagram puts no payload on the way but the datagram's or a beginning of it, a valid
  -- datagram that recv_datagram returns has a payload on the way or a beginning of one, and no
  -- other operation puts anything on the way.
  pub linux_sockets-Carries :
      (clock : W → T × W)
      → ((w : W) → IsNoNews carried w (clock w).1)
      → Carries (linux_sockets {D = D} inet os) clock carried
  unfolding linux_sockets Linux.set_reuse_addr Linux.set_broadcast Linux.set_recv_timeout
      Linux.set_send_timeout
  linux_sockets-Carries clock quiet = record {
    bytes = net.bytes;
    clock_news = quiet;
    open_news = open_news inet net;
    close_news = close_news inet net;
    bind_news = bind_news inet net;
    reuse_news = λ on s w p h.
        ground (arith, h, net.setsockopt_news s.fd (so_reuseaddr (if on then 1 else 0)) w p);
    broadcast_news = λ on s w p h.
        ground (arith, h, net.setsockopt_news s.fd (so_broadcast (if on then 1 else 0)) w p);
    recv_timeout_news = λ d s w p h.
        ground
          (arith, h, net.setsockopt_news s.fd (so_rcvtimeo (Linux.make_timeval (ds.millis d))) w p);
    send_timeout_news = λ d s w p h.
        ground
          (arith, h, net.setsockopt_news s.fd (so_sndtimeo (Linux.make_timeval (ds.millis d))) w p);
    recv_news = recv_news inet net;
    send_news = send_news inet net;
    recv_brings = recv_brings inet net;
  }
