-- ===== src/Backend/Udp/Delivery.antt =====
-- A message from the envelope that one UDP backend sends to the envelope that another one polls.
use discovery.Base.{
  ℕ, All, ◌++◌, ◌∷◌, none, ◌≡◌, sym, ap, ◌∙◌, some, true, false, ◌==◌, is_empty, length, arith,
}
use discovery.Base.Text.{Bytes, IsByte}
use discovery.External.Serializer.{Serializer, SerializerLaws}
use discovery.External.Time.{Timestamps}
use discovery.Core.Datagram
use discovery.Core.Datagram.{Datagram}
use discovery.Core.Message
use discovery.Core.Message.{Message}
use discovery.Core.Envelope
use discovery.Core.Envelope.{Envelope}
use discovery.Encoding.Encode.{encode_message, make_datagram}
use discovery.Encoding.Decode
use discovery.Encoding.Decode.{decode_datagram, decode_message}
use discovery.Encoding.Wire.{FitsMessage}
use discovery.Encoding.RoundTrip.{decode_message-encode_message, decode_message_truncated}
use discovery.Encoding.Datagrams.{is_valid-make_datagram, make_datagram_sent}
use discovery.Platform.{UdpSockets}
use discovery.Backend.Udp
use discovery.Backend.Udp.{Udp}

-- The datagram that carries a message to or from an endpoint.
abbrev pub carrier : Serializer → Message → Bytes → ℕ → Datagram
carrier s m host port = record { host = host; port = port; payload = encode_message s m }

-- A message received from an endpoint at a time.
abbrev pub inbound : {T : Type 0} → ⦃ts : Timestamps T⦄ → Message → Bytes → ℕ → T → T → Envelope T
inbound m host port made t = record (Envelope.make made m) {
  from_host = host;
  from_port = port;
  timestamp = t;
}

module _ {s : Serializer} (laws : SerializerLaws s) where
  carrier_valid :
      (m : Message) (host : Bytes) (port : ℕ)
      → Message.is_valid m ≡ true
      → is_empty host ≡ false
      → (port == 0) ≡ false
      → (Datagram.is_valid (make_datagram s m host port) ≡ true)
        × (make_datagram s m host port ≡ carrier s m host port)
        × (Datagram.is_valid (carrier s m host port) ≡ true)
  carrier_valid m host port valid named open_port =
      let ok : Datagram.is_valid (make_datagram s m host port) ≡ true =
        is_valid-make_datagram laws m host port ∙ ground (arith, valid, named, open_port) in
      let same = make_datagram_sent laws m host port ok in
      (ok, same, ap Datagram.is_valid (sym same) ∙ ok)

  carrier_decoded :
      (m : Message) (host : Bytes) (port : ℕ)
      → Message.is_valid m ≡ true
      → FitsMessage m
      → Datagram.is_valid (carrier s m host port) ≡ true
      → decode_datagram s (carrier s m host port) ≡ some m
  unfolding decode_datagram Decode.decode_buffer Datagram.is_valid
  carrier_decoded m host port valid fits ok =
      ground (arith, ok, decode_message-encode_message laws m valid fits)

module _ {S S' W W' D T : Type 0} ⦃ts : Timestamps T⦄ {s : Serializer} (laws : SerializerLaws s)
    (u : UdpSockets S W D) (clock : W → T × W) (u' : UdpSockets S' W' D)
    (clock' : W' → T × W') where
  pub send_carrier :
      (e : Envelope T) (b : Udp S W D)
      → b.running ≡ true
      → Envelope.is_valid e ≡ true
      → Envelope.has_destination e ≡ true
      → let (sent, w) =
          u.send_datagram (carrier s e.message e.to_host e.to_port) b.socket b.system in
        Udp.send s u clock e b
        ≡ (sent == length (encode_message s e.message), record b { system = w })
  unfolding Udp.send Envelope.is_valid Envelope.has_destination
  send_carrier e b on valid aimed =
      let (ok, same, ok') =
        carrier_valid laws e.message e.to_host e.to_port (ground (arith, valid))
          (ground (arith, aimed)) (ground (arith, aimed)) in
      rw (Udp.send, on, same, ok') (ground (arith, valid, aimed))

  pub poll_carrier :
      (m : Message) (host : Bytes) (port : ℕ) (b : Udp S' W' D)
      → b.running ≡ true
      → Message.is_valid m ≡ true
      → FitsMessage m
      → is_empty host ≡ false
      → (port == 0) ≡ false
      → (u'.recv_datagram b.config.max_datagram_size b.socket b.system).0 ≡ carrier s m host port
      → let w = (u'.recv_datagram b.config.max_datagram_size b.socket b.system).1 in
        let (made, w₁) = clock' w in
        let (t, w₂) = clock' w₁ in
        Udp.poll s u' clock' b ≡ (some (inbound m host port made t), record b { system = w₂ })
  unfolding Udp.poll
  poll_carrier m host port b on valid fits named open_port brings =
      let (_, _, ok) = carrier_valid laws m host port valid named open_port in
      let read : decode_datagram s (carrier s m host port) ≡ some m =
        carrier_decoded laws m host port valid fits ok in
      ground (arith, on, brings, ok, read)

  -- Two running UDP backends, on any sockets, with a serializer that keeps its laws: when one sends
  -- a valid envelope with a destination and a message below 4 GiB in each field, it hands its
  -- socket exactly one datagram, with the destination and the encoded message, and returns whether
  -- all of it went out; and when the other one's socket brings those bytes from a host and a port,
  -- its poll returns the message with that source and the time of the second clock reading.
  pub send-poll :
      (e : Envelope T) (a : Udp S W D) (b : Udp S' W' D) (host : Bytes) (port : ℕ)
      → a.running ≡ true
      → Envelope.is_valid e ≡ true
      → Envelope.has_destination e ≡ true
      → FitsMessage e.message
      → b.running ≡ true
      → is_empty host ≡ false
      → (port == 0) ≡ false
      → (u'.recv_datagram b.config.max_datagram_size b.socket b.system).0
        ≡ carrier s e.message host port
      → (let (sent, w) =
            u.send_datagram (carrier s e.message e.to_host e.to_port) a.socket a.system in
          Udp.send s u clock e a
          ≡ (sent == length (encode_message s e.message), record a { system = w }))
        × (let w = (u'.recv_datagram b.config.max_datagram_size b.socket b.system).1 in
            let (made, w₁) = clock' w in
            let (t, w₂) = clock' w₁ in
            Udp.poll s u' clock' b
            ≡ (some (inbound e.message host port made t), record b { system = w₂ }))
  unfolding Envelope.is_valid
  send-poll e a b host port on valid aimed fits on' named open_port brings = (
    send_carrier e a on valid aimed,
    poll_carrier e.message host port b on' (ground (arith, valid)) fits named open_port brings,
  )

module _ {S W D T : Type 0} ⦃ts : Timestamps T⦄ {s : Serializer} (laws : SerializerLaws s)
    (u : UdpSockets S W D) (clock : W → T × W) where
  truncated_refused :
      (m : Message) (host front : Bytes) (x : ℕ) (back : Bytes) (port : ℕ)
      → Message.is_valid m ≡ true
      → FitsMessage m
      → All IsByte (front ++ x ∷ back)
      → encode_message s m ≡ front ++ x ∷ back
      → decode_datagram s (record { host = host; port = port; payload = front }) ≡ none
  unfolding decode_datagram Decode.decode_buffer
  truncated_refused m host front x back port valid fits bytes written =
      let whole : decode_message s (front ++ x ∷ back) ≡ some m =
        ap (decode_message s) (sym written) ∙ decode_message-encode_message laws m valid fits in
      ground (arith, decode_message_truncated laws front x back m bytes whole)

  -- With a serializer that keeps its laws: when the socket of a running UDP backend brings a proper
  -- prefix of an encoded message, as it does of a datagram longer than max_datagram_size, poll
  -- returns nothing, and only the system has changed.
  pub poll_truncated :
      (m : Message) (host front : Bytes) (x : ℕ) (back : Bytes) (port : ℕ) (b : Udp S W D)
      → b.running ≡ true
      → Message.is_valid m ≡ true
      → FitsMessage m
      → All IsByte (front ++ x ∷ back)
      → encode_message s m ≡ front ++ x ∷ back
      → (u.recv_datagram b.config.max_datagram_size b.socket b.system).0
        ≡ record { host = host; port = port; payload = front }
      → Udp.poll s u clock b ≡ (
        none,
        record b { system = (u.recv_datagram b.config.max_datagram_size b.socket b.system).1 },
      )
  unfolding Udp.poll
  poll_truncated m host front x back port b on valid fits bytes written brings =
      ground
        (arith, on, brings, truncated_refused m host front x back port valid fits bytes written)
