-- ===== src/Network/Carried.antt =====
-- UDP as the network of many sockets: it may lose, repeat, reorder and cut off what was sent, and
-- give it to any socket, but it makes nothing up.
use discovery.Base.{
  ℕ, ◌≡◌, sym, ap, subst, ◌∙◌, inl, inr, some, Bool, true, All, [], ◌∷◌, ◌++◌, All-append_left,
  Bool-cases, arith,
}
use mathlib.Core.Option.{some-injective}
use mathlib.Core.List.{append-nil, append_assoc}
use discovery.Base.Text.{Bytes, IsByte}
use discovery.External.Serializer.{Serializer, SerializerLaws}
use discovery.External.Carrying.{IsStart, IsNoNews, IsNewsOf}
use discovery.External.Time.{Timestamps, Durations}
use discovery.Core.Announcement.{Announcement}
use discovery.Core.Datagram
use discovery.Core.Datagram.{Datagram}
use discovery.Core.Envelope
use discovery.Core.Envelope.{Envelope}
use discovery.Core.Message
use discovery.Core.Message.{Message}
use discovery.Encoding.Encode.{encode_message, make_datagram}
use discovery.Encoding.Datagrams.{make_datagram_sent}
use discovery.Encoding.Decode.{decode_message, decode_buffer, decode_datagram}
use discovery.Encoding.Wire.{FitsMessage}
use discovery.Encoding.RoundTrip.{decode_message-encode_message, decode_message_trailing}
use discovery.Platform.{UdpSockets}
use discovery.Backend.Udp
use discovery.Backend.Udp.{Udp, udp_backend}
use discovery.Engine.Conduct.{IsHonest, Upholds}

module _ {S W D T : Type 0} (u : UdpSockets S W D) (clock : W → T × W)
    (carried : Bytes → W → Type 0) where
  -- What the network promises. Only sending puts a payload on the way, the datagram's or a
  -- beginning of it, and what a socket receives is one that is on the way or a beginning of it.
  pub record Carries : Type 0 where
    pub bytes : (p : Bytes) (w : W) → carried p w → All IsByte p
    pub clock_news : (w : W) → IsNoNews carried w (clock w).1
    pub open_news : (s : S) (w : W) → IsNoNews carried w (u.open_socket s w).2
    pub close_news : (s : S) (w : W) → IsNoNews carried w (u.close s w).1
    pub bind_news :
        (host : Bytes) (port : ℕ) (s : S) (w : W) → IsNoNews carried w (u.bind host port s w).2
    pub reuse_news : (on : Bool) (s : S) (w : W) → IsNoNews carried w (u.set_reuse_addr on s w).1
    pub broadcast_news : (on : Bool) (s : S) (w : W) → IsNoNews carried w (u.set_broadcast on s w).1
    pub recv_timeout_news :
        (d : D) (s : S) (w : W) → IsNoNews carried w (u.set_recv_timeout d s w).1
    pub send_timeout_news :
        (d : D) (s : S) (w : W) → IsNoNews carried w (u.set_send_timeout d s w).1
    pub recv_news : (size : ℕ) (s : S) (w : W) → IsNoNews carried w (u.recv_datagram size s w).1
    pub send_news :
        (d : Datagram) (s : S) (w : W) → IsNewsOf carried d.payload w (u.send_datagram d s w).1
    pub recv_brings :
        (size : ℕ) (s : S) (w : W)
        → Datagram.is_valid (u.recv_datagram size s w).0 ≡ true
        → (p : Bytes) × carried p w × IsStart (u.recv_datagram size s w).0.payload p

module _ {s : Serializer} (laws : SerializerLaws s) where
  start_decoded :
      (front back : Bytes) (m m' : Message)
      → All IsByte front
      → decode_message s (front ++ back) ≡ some m
      → decode_message s front ≡ some m'
      → m' ≡ m
  start_decoded front [] m m' bytes whole read =
      some-injective m' m (sym read ∙ ap (decode_message s) (sym (append-nil front)) ∙ whole)
  start_decoded front (x ∷ back) m m' bytes whole read =
      let refused = decode_message_trailing laws front m' x back bytes read in
      ground (arith, refused, whole)

  -- Of the beginnings of an encoded message only the whole is decoded.
  pub cut_decoded :
      (front p : Bytes) (m m' : Message)
      → Message.is_valid m ≡ true
      → FitsMessage m
      → All IsByte p
      → IsStart front p
      → IsStart p (encode_message s m)
      → decode_message s front ≡ some m'
      → m' ≡ m
  cut_decoded front p m m' valid fits bytes (rest, cut) (rest', cut') read =
      let whole : encode_message s m ≡ front ++ (rest ++ rest') =
        cut' ∙ ap (λ (x : Bytes). x ++ rest') cut ∙ append_assoc front rest rest' in
      start_decoded front (rest ++ rest') m m'
        (All-append_left IsByte front rest (subst (All IsByte) cut bytes))
        (ap (decode_message s) (sym whole) ∙ decode_message-encode_message laws m valid fits) read

module _ {S W D T : Type 0} ⦃ts : Timestamps T⦄ {s : Serializer} (laws : SerializerLaws s)
    (u : UdpSockets S W D) (clock : W → T × W) {carried : Bytes → W → Type 0}
    (net : Carries u clock carried) (Met : Announcement T → Type 0) where
  -- The payload is a valid and honest message, or the beginning of one.
  abbrev pub IsSaid : Bytes → Type 0
  IsSaid p =
      (m : Message) × (Message.is_valid m ≡ true)
      × IsHonest s Met FitsMessage m
      × IsStart p (encode_message s m)

  -- Everything on the way was said.
  pub record IsSpoken (w : W) : Type 0 where
    pub said : (p : Bytes) → carried p w → IsSaid p

  pub news-IsSpoken : (w w' : W) → IsNoNews carried w w' → IsSpoken w → IsSpoken w'
  news-IsSpoken w w' news h = record { said = λ p on_way. h.said p (news p on_way) }

  abbrev pub IsCarried : Udp S W D → Type 0
  IsCarried b = IsSpoken b.system

  sent-IsSpoken :
      (m : Message) (host : Bytes) (port : ℕ) (socket : S) (w : W)
      → Message.is_valid m ≡ true
      → IsHonest s Met FitsMessage m
      → Datagram.is_valid (make_datagram s m host port) ≡ true
      → IsSpoken w
      → IsSpoken (u.send_datagram (make_datagram s m host port) socket w).1
  sent-IsSpoken m host port socket w valid honest made h = record {
    said = λ p on_way. elim (net.send_news (make_datagram s m host port) socket w p on_way) [
      | inl before ↦ h.said p before
      | inr (rest, new) ↦ (
        m,
        valid,
        honest,
        (
          rest,
          ap (λ (d : Datagram). d.payload) (sym (make_datagram_sent laws m host port made)) ∙ new,
        ),
      )
    ];
  }

  send-IsCarried :
      (e : Envelope T) (b : Udp S W D)
      → IsHonest s Met FitsMessage e.message
      → IsCarried b
      → IsCarried (Udp.send s u clock e b).1
  unfolding Udp.send Envelope.is_valid
  send-IsCarried e b honest h = elim (Bool-cases (Message.is_valid e.message)) [
    | inr bad ↦ ground (arith, h, bad)
    | inl valid ↦
        let d : Datagram = make_datagram s e.message e.to_host e.to_port in
        elim (Bool-cases (Datagram.is_valid d)) [
          | inr unmade ↦ ground (arith, h, unmade)
          | inl made ↦ ground (
            arith,
            h,
            sent-IsSpoken e.message e.to_host e.to_port b.socket b.system valid honest made h,
          )
        ]
  ]

  poll-IsCarried : (b : Udp S W D) → IsCarried b → IsCarried (Udp.poll s u clock b).1
  unfolding Udp.poll
  poll-IsCarried b h =
      let w₁ : W = (u.recv_datagram b.config.max_datagram_size b.socket b.system).1 in
      let h₁ : IsSpoken w₁ =
        news-IsSpoken b.system w₁ (net.recv_news b.config.max_datagram_size b.socket b.system) h in
      let w₂ : W = (clock w₁).1 in
      let h₂ : IsSpoken w₂ = news-IsSpoken w₁ w₂ (net.clock_news w₁) h₁ in
      ground (arith, h, h₁, news-IsSpoken w₂ (clock w₂).1 (net.clock_news w₂) h₂)

  decoded-IsHonest :
      (d : Datagram) (p : Bytes) (w : W) (m : Message)
      → IsSpoken w
      → carried p w
      → IsStart d.payload p
      → decode_datagram s d ≡ some m
      → IsHonest s Met FitsMessage m
  unfolding decode_datagram decode_buffer
  decoded-IsHonest d p w m h on_way cut read =
      let (m₀, valid, honest, start) = h.said p on_way in
      let itself : m ≡ m₀ =
        cut_decoded laws d.payload p m₀ m valid honest.fits (net.bytes p w on_way) cut start
          (ground (arith, read)) in
      subst (IsHonest s Met FitsMessage) (sym itself) honest

  polled_decoded :
      (b : Udp S W D) (e : Envelope T)
      → (Udp.poll s u clock b).0 ≡ some e
      → let d = (u.recv_datagram b.config.max_datagram_size b.socket b.system).0 in
        (Datagram.is_valid d ≡ true) × (decode_datagram s d ≡ some e.message)
  unfolding Udp.poll Envelope.make
  polled_decoded b e heard = ground (arith, heard)

  hears-IsHonest :
      (b : Udp S W D) (e : Envelope T)
      → IsCarried b
      → (Udp.poll s u clock b).0 ≡ some e
      → IsHonest s Met FitsMessage e.message
  hears-IsHonest b e h heard =
      let (valid, read) = polled_decoded b e heard in
      let (p, on_way, cut) = net.recv_brings b.config.max_datagram_size b.socket b.system valid in
      decoded-IsHonest (u.recv_datagram b.config.max_datagram_size b.socket b.system).0 p b.system
        e.message h on_way cut read

  pub IsCarried-Upholds :
      ⦃ds : Durations D⦄ → Upholds s Met FitsMessage (udp_backend s u clock) IsCarried
  unfolding udp_backend Udp.now
  IsCarried-Upholds = record {
    now = λ b h. news-IsSpoken b.system (clock b.system).1 (net.clock_news b.system) h;
    send = λ e b honest h. send-IsCarried e b honest h;
    poll = poll-IsCarried;
    hears = λ b e h heard. hears-IsHonest b e h heard;
  }
