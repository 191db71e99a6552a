-- ===== src/Backend/Udp/Starting.antt =====
-- Which handles a UDP backend holds, and that starting and stopping it leak none.
use discovery.Base.{◌≡◌, sym, ◌∙◌, Bool, true, false, Bool-cases, inl, inr, arith}
use discovery.Base.Int.{ℤ}
use discovery.External.Time.{Durations}
use discovery.Platform.{UdpSockets, UdpSocketLaws, Holds}
use discovery.Platform.Ownership.{Owns-kept}
use discovery.Backend.Udp
use discovery.Backend.Udp.{Udp}

module _ {S W D : Type 0} {u : UdpSockets S W D} {is_open : ℤ → W → Bool}
    (laws : UdpSocketLaws u is_open) (base : ℤ → Bool) where
  -- The backend's socket is all that it holds, and it is valid exactly while the backend runs.
  pub record IsTidy (b : Udp S W D) : Type 0 where
    pub held : Holds u is_open base b.socket b.system
    pub valid : u.is_valid b.socket ≡ b.running

  pub kept-IsTidy :
      (b : Udp S W D) (w : W)
      → ((j : ℤ) → is_open j w ≡ is_open j b.system)
      → IsTidy b
      → IsTidy (record b { system = w })
  kept-IsTidy b w same h = record { held = Owns-kept same h.held; valid = h.valid }

  configure_socket_table :
      (b : Udp S W D) (j : ℤ) → is_open j (Udp.configure_socket u b).1.system ≡ is_open j b.system
  unfolding Udp.configure_socket
  configure_socket_table b j =
      let w₁ : W = (u.set_reuse_addr true b.socket b.system).1 in
      let w₂ : W = (u.set_broadcast b.config.enable_broadcast b.socket w₁).1 in
      let w₃ : W = (u.set_recv_timeout b.config.announce_interval b.socket w₂).1 in
      ground (
        arith,
        laws.reuse_open j true b.socket b.system,
        laws.broadcast_open j b.config.enable_broadcast b.socket w₁,
        laws.recv_timeout_open j b.config.announce_interval b.socket w₂,
        laws.send_timeout_open j b.config.announce_interval b.socket w₃,
      )

  configure_socket_kept :
      (b : Udp S W D)
      → ((Udp.configure_socket u b).1.socket ≡ b.socket)
        × ((Udp.configure_socket u b).1.running ≡ b.running)
  unfolding Udp.configure_socket
  configure_socket_kept b = ground arith

  pub stop-IsTidy : (b : Udp S W D) → IsTidy b → IsTidy (Udp.stop u b)
  unfolding Udp.stop Udp.close_socket
  stop-IsTidy b h = record {
    held = laws.close-Holds base b.socket b.system h.held;
    valid = laws.close_invalid b.socket b.system;
  }

  close_socket-IsTidy :
      (b : Udp S W D)
      → b.running ≡ false
      → Holds u is_open base b.socket b.system
      → IsTidy (Udp.close_socket u b)
  unfolding Udp.close_socket
  close_socket-IsTidy b off held = record {
    held = laws.close-Holds base b.socket b.system held;
    valid = laws.close_invalid b.socket b.system ∙ sym off;
  }

  -- The steps of a start of a stopped backend.
  opened : Udp S W D → Udp S W D
  opened b =
      let (ok, socket, system) = u.open_socket b.socket b.system in
      record b { socket = socket; system = system }

  configured : Udp S W D → Udp S W D
  configured b = (Udp.configure_socket u (opened b)).1

  bound : Udp S W D → Udp S W D
  bound b =
      let b₂ = configured b in
      let (ok, socket, system) = u.bind b.config.bind_host b.config.bind_port b₂.socket b₂.system in
      record b₂ { socket = socket; system = system }

  opened_held :
      (b : Udp S W D)
      → Holds u is_open base b.socket b.system
      → Holds u is_open base (opened b).socket (opened b).system
  unfolding opened
  opened_held b h = laws.open-Holds base b.socket b.system h

  configured_held :
      (b : Udp S W D)
      → Holds u is_open base b.socket b.system
      → Holds u is_open base (configured b).socket (configured b).system
  unfolding configured
  configured_held b h =
      rw ((configure_socket_kept (opened b)).0)
        (Owns-kept (configure_socket_table (opened b)) (opened_held b h))

  bound_held :
      (b : Udp S W D)
      → Holds u is_open base b.socket b.system
      → Holds u is_open base (bound b).socket (bound b).system
  unfolding bound
  bound_held b h =
      laws.bind-Holds base b.config.bind_host b.config.bind_port (configured b).socket
        (configured b).system (configured_held b h)

  -- Binding a valid socket keeps it.
  bound_valid :
      (b : Udp S W D)
      → (u.open_socket b.socket b.system).0 ≡ true
      → u.is_valid (bound b).socket ≡ true
  unfolding opened configured bound
  bound_valid b ok =
      let valid : u.is_valid (opened b).socket ≡ true =
        ground (arith, ok, laws.open_result b.socket b.system) in
      let same : (configured b).socket ≡ (opened b).socket = (configure_socket_kept (opened b)).0 in
      let valid₂ : u.is_valid (configured b).socket ≡ true = rw same valid in
      rw
        (laws.bind_valid b.config.bind_host b.config.bind_port (configured b).socket
          (configured b).system valid₂)
        valid₂

  pub start-IsTidy : ⦃ds : Durations D⦄ → (b : Udp S W D) → IsTidy b → IsTidy (Udp.start u b).1
  unfolding Udp.start opened configured bound
  start-IsTidy b h = elim (Bool-cases b.running) [
    | inl on ↦ ground (arith, h, on)
    | inr off ↦
        let off₂ : (configured b).running ≡ false = (configure_socket_kept (opened b)).1 ∙ off in
        let t₁ : (u.open_socket b.socket b.system).0 ≡ false → IsTidy (opened b) = λ bad. record {
          held = opened_held b h.held;
          valid = sym (laws.open_result b.socket b.system) ∙ (bad ∙ sym off);
        } in
        let t₂ : IsTidy (Udp.close_socket u (configured b)) =
          close_socket-IsTidy (configured b) off₂ (configured_held b h.held) in
        let t₃ : IsTidy (Udp.close_socket u (bound b)) =
          close_socket-IsTidy (bound b) off₂ (bound_held b h.held) in
        let t₄ : (u.open_socket b.socket b.system).0 ≡ true
            → IsTidy (record (bound b) { running = true }) =
          λ ok. record { held = bound_held b h.held; valid = bound_valid b ok } in
        elim (Bool-cases (u.open_socket b.socket b.system).0) [
          | inl ok ↦ rw (Udp.start, ok) (ground (arith, h, off, t₂, t₃, t₄ ok))
          | inr bad ↦ rw (Udp.start, bad) (ground (arith, h, off, t₁ bad))
        ]
  ]
