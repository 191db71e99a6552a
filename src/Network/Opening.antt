-- ===== src/Network/Opening.antt =====
-- Opening, configuring, binding and closing a socket puts nothing on the way.
use discovery.Base.{true, false, arith}
use discovery.Base.Text.{Bytes}
use discovery.External.Serializer.{Serializer, SerializerLaws}
use discovery.External.Carrying.{IsNoNews}
use discovery.External.Time.{Timestamps, Durations}
use discovery.Core.Announcement.{Announcement}
use discovery.Platform.{UdpSockets}
use discovery.Backend.Udp
use discovery.Backend.Udp.{Udp, udp_backend}
use discovery.Engine.Conduct.{Switches}
use discovery.Network.Carried.{Carries, IsSpoken, news-IsSpoken, IsCarried}

module _ {S W D T : Type 0} ⦃ts : Timestamps T⦄ {s : Serializer} (laws : SerializerLaws s)
    (u : UdpSockets S W D) (clock : W → T × W) {carried : Bytes → W → Type 0}
    (net : Carries u clock carried) (Met : Announcement T → Type 0) where
  abbrev Spoken : W → Type 0
  Spoken = IsSpoken laws u clock net Met

  newer : (w w' : W) → IsNoNews carried w w' → Spoken w → Spoken w'
  newer = news-IsSpoken laws u clock net Met

  configure_socket-Spoken :
      (b : Udp S W D) → Spoken b.system → Spoken (Udp.configure_socket u b).1.system
  unfolding Udp.configure_socket
  configure_socket-Spoken b h =
      let w₁ : W = (u.set_reuse_addr true b.socket b.system).1 in
      let h₁ : Spoken w₁ = newer b.system w₁ (net.reuse_news true b.socket b.system) h in
      let w₂ : W = (u.set_broadcast b.config.enable_broadcast b.socket w₁).1 in
      let h₂ : Spoken w₂ =
        newer w₁ w₂ (net.broadcast_news b.config.enable_broadcast b.socket w₁) h₁ in
      let w₃ : W = (u.set_recv_timeout b.config.announce_interval b.socket w₂).1 in
      let h₃ : Spoken w₃ =
        newer w₂ w₃ (net.recv_timeout_news b.config.announce_interval b.socket w₂) h₂ in
      let w₄ : W = (u.set_send_timeout b.config.announce_interval b.socket w₃).1 in
      let h₄ : Spoken w₄ =
        newer w₃ w₄ (net.send_timeout_news b.config.announce_interval b.socket w₃) h₃ in
      ground (arith, h₁, h₂, h₃, h₄)

  close_socket-Spoken : (b : Udp S W D) → Spoken b.system → Spoken (Udp.close_socket u b).system
  unfolding Udp.close_socket
  close_socket-Spoken b h =
      newer b.system (u.close b.socket b.system).1 (net.close_news b.socket b.system) h

  start-Spoken :
      ⦃ds : Durations D⦄ → (b : Udp S W D) → Spoken b.system → Spoken (Udp.start u b).1.system
  unfolding Udp.start
  start-Spoken b h =
      let (opened, s₁, w₁) = u.open_socket b.socket b.system in
      let h₁ : Spoken w₁ = newer b.system w₁ (net.open_news b.socket b.system) h in
      let b₁ : Udp S W D = record b { socket = s₁; system = w₁ } in
      let b₂ : Udp S W D = (Udp.configure_socket u b₁).1 in
      let h₂ : Spoken b₂.system = configure_socket-Spoken b₁ h₁ in
      let (bound, s₃, w₃) = u.bind b.config.bind_host b.config.bind_port b₂.socket b₂.system in
      let h₃ : Spoken w₃ =
        newer b₂.system w₃ (net.bind_news b.config.bind_host b.config.bind_port b₂.socket b₂.system)
          h₂ in
      let b₃ : Udp S W D = record b₂ { socket = s₃; system = w₃ } in
      ground (arith, h, h₁, h₃, close_socket-Spoken b₂ h₂, close_socket-Spoken b₃ h₃)

  pub IsCarried-Switches :
      ⦃ds : Durations D⦄ → Switches (udp_backend s u clock) (IsCarried laws u clock net Met)
  unfolding udp_backend Udp.stop
  IsCarried-Switches = record {
    start = start-Spoken;
    stop = λ b h. close_socket-Spoken (record b { running = false }) h;
  }
