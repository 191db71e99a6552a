-- ===== src/Encoding/Datagrams.antt =====
-- Which messages are encoded, and what a datagram carries.
use discovery.Base.{
  ℕ, ◌+◌, ◌==◌, ◌≡◌, [], some, true, false, not, ◌&&◌, is_empty, length, arith, Bool-cases, inl,
  inr,
}
use discovery.Base.Text.{Bytes}
use discovery.External.Serializer.{Serializer, SerializerLaws}
use discovery.Core.Message
use discovery.Core.Message.{Message}
use discovery.Core.Datagram
use discovery.Encoding.Encode.{encode_message, make_datagram}
use discovery.Encoding.Decode.{decode_datagram}
use discovery.Encoding.Wire.{FitsMessage, encode-wire}
use discovery.Encoding.RoundTrip.{length-wire_message, decode_message-encode_message}

module _ {s : Serializer} (laws : SerializerLaws s) where
  encode_message_refused : (m : Message) → Message.is_valid m ≡ false → encode_message s m ≡ []
  unfolding encode_message
  encode_message_refused m h = rw h

  -- A valid message takes 17 bytes and those of its four fields.
  pub length-encode_message :
      (m : Message)
      → Message.is_valid m ≡ true
      → length (encode_message s m)
        ≡ 17
          + length m.from_node_id
          + length m.to_node_id
          + length m.correlation_id
          + length m.payload
  length-encode_message m h = rw (encode-wire laws m h) (length-wire_message laws m)

  is_empty-encode_message : (m : Message) → is_empty (encode_message s m) ≡ not (Message.is_valid m)
  is_empty-encode_message m = elim (Bool-cases (Message.is_valid m)) [
    | inl h ↦ rw (encode-wire laws m h, h)
    | inr h ↦ rw (encode_message_refused m h, h)
  ]

  -- `make_datagram` yields a valid datagram exactly when the host is not empty, the port is not
  -- zero and the message is valid.
  pub is_valid-make_datagram :
      (m : Message) (host : Bytes) (port : ℕ)
      → Datagram.is_valid (make_datagram s m host port)
        ≡ (not (is_empty host) && not (port == 0) && Message.is_valid m)
  unfolding make_datagram Datagram.is_valid Datagram.initial
  is_valid-make_datagram m host port = ground (arith, is_empty-encode_message m)

  pub make_datagram_sent :
      (m : Message) (host : Bytes) (port : ℕ)
      → Datagram.is_valid (make_datagram s m host port) ≡ true
      → make_datagram s m host port
        ≡ record { host = host; port = port; payload = encode_message s m }
  unfolding make_datagram Datagram.is_valid Datagram.initial
  make_datagram_sent m host port h = ground arith

  -- A message whose fields are each below 4 GiB, put into a valid datagram by `make_datagram`, is
  -- returned by `decode_datagram`.
  pub decode_datagram-make_datagram :
      (m : Message) (host : Bytes) (port : ℕ)
      → FitsMessage m
      → Datagram.is_valid (make_datagram s m host port) ≡ true
      → decode_datagram s (make_datagram s m host port) ≡ some m
  unfolding decode_datagram make_datagram Datagram.is_valid Datagram.initial
  decode_datagram-make_datagram m host port fits h = ground (
    arith,
    is_empty-encode_message m,
    λ (valid : Message.is_valid m ≡ true). decode_message-encode_message laws m valid fits,
  )
