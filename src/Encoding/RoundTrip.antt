-- ===== src/Encoding/RoundTrip.antt =====
-- The encoder and the decoder are inverse to one another.
use discovery.Base.{ℕ, ◌+◌, ◌≡◌, refl, sym, ap, ◌∙◌, [], ◌∷◌, ◌++◌, none, some, arith}
use discovery.Base.{true, length, drop, All, length-append, drop_all}
use discovery.Base.{Option-cases, inl, inr, All-append_left}
use discovery.Base.Text.{Bytes, IsByte}
use discovery.External.Serializer.{Serializer, SerializerLaws}
use discovery.Types.MessageType
use discovery.Core.Message
use discovery.Core.Message.{Message}
use discovery.Encoding.Encode.{encode_message}
use discovery.Encoding.Decode.{decode_message}
use discovery.Encoding.Fields.{
  wire_text, string_field, bytes_field, length-wire_text, drop_past, read_u8_wire, read_u8_inverse,
}
use mathlib.Core.List.{append-nil, append_assoc}
use discovery.Encoding.Wire.{
  FitsMessage, Reads, decode_of_Reads, decode_left_over, decode-Reads, wire_message, encode-wire,
}

from_u8-to_u8 :
    (t : MessageType.MessageType)
    → MessageType.is_valid t ≡ true
    → MessageType.from_u8 (MessageType.to_u8 t) ≡ t
unfolding MessageType.from_u8 MessageType.to_u8 MessageType.is_valid
from_u8-to_u8 MessageType.unknown h = refl
from_u8-to_u8 MessageType.announce h = refl
from_u8-to_u8 MessageType.probe h = refl
from_u8-to_u8 MessageType.reply h = refl
from_u8-to_u8 (MessageType.unnamed n) h = cc

pub to_u8-from_u8 : (raw : ℕ) → MessageType.to_u8 (MessageType.from_u8 raw) ≡ raw
unfolding MessageType.from_u8 MessageType.to_u8
to_u8-from_u8 raw = ground arith

Message-type_valid : (m : Message) → Message.is_valid m ≡ true → MessageType.is_valid m.type ≡ true
unfolding Message.is_valid
Message-type_valid m h = ground arith

module _ {s : Serializer} (laws : SerializerLaws s) where
  pub length-wire_message :
      (m : Message)
      → length (wire_message laws m)
        ≡ 17
          + length m.from_node_id
          + length m.to_node_id
          + length m.correlation_id
          + length m.payload
  length-wire_message m = omega (arith, length-append {0}, length-wire_text laws)

  wire_message_end :
      (m : Message)
      → 1
          + length (wire_text laws m.from_node_id)
          + length (wire_text laws m.to_node_id)
          + length (wire_text laws m.correlation_id)
          + length (wire_text laws m.payload)
        ≡ length (wire_message laws m)
  wire_message_end m = omega (arith, length-wire_message m, length-wire_text laws)

  -- On a message's wire form with anything behind it the reads yield the message's fields.
  wire-Reads :
      (m : Message) (data' rest : Bytes)
      → FitsMessage m
      → Message.is_valid m ≡ true
      → data' ≡ wire_message laws m ++ rest
      → (r : Reads s data' m) × (r.finish ≡ length (wire_message laws m))
  wire-Reads m data' rest fits valid e =
      let w₁ : Bytes = wire_text laws m.from_node_id in
      let w₂ : Bytes = wire_text laws m.to_node_id in
      let w₃ : Bytes = wire_text laws m.correlation_id in
      let w₄ : Bytes = wire_text laws m.payload in
      let tail : Bytes = w₁ ++ (w₂ ++ (w₃ ++ (w₄ ++ rest))) in
      let o₂ : ℕ = 1 + length w₁ in
      let o₃ : ℕ = o₂ + length w₂ in
      let o₄ : ℕ = o₃ + length w₃ in
      let d₀ : drop 0 data' ≡ MessageType.to_u8 m.type ∷ tail = e ∙ simp append_assoc in
      let d₁ : drop 1 data' ≡ tail = drop_past data' (MessageType.to_u8 m.type ∷ []) tail 0 d₀ in
      let d₂ : drop o₂ data' ≡ w₂ ++ (w₃ ++ (w₄ ++ rest)) = drop_past data' w₁ _ 1 d₁ in
      let d₃ : drop o₃ data' ≡ w₃ ++ (w₄ ++ rest) = drop_past data' w₂ _ o₂ d₂ in
      let d₄ : drop o₄ data' ≡ w₄ ++ rest = drop_past data' w₃ _ o₃ d₃ in
      (
        record {
          raw_type = MessageType.to_u8 m.type;
          sender = 1;
          recipient = o₂;
          correlation = o₃;
          body = o₄;
          finish = o₄ + length w₄;
          type_read = read_u8_wire laws (MessageType.to_u8 m.type) data' tail 0 d₀;
          from_read = (string_field laws).read_wire m.from_node_id data' _ 1 fits.from_node_id d₁;
          to_read = (string_field laws).read_wire m.to_node_id data' _ o₂ fits.to_node_id d₂;
          correlation_read =
              (string_field laws).read_wire m.correlation_id data' _ o₃ fits.correlation_id d₃;
          payload_read = (bytes_field laws).read_wire m.payload data' rest o₄ fits.payload d₄;
          typed = sym (from_u8-to_u8 m.type (Message-type_valid m valid));
          valid = valid;
        },
        wire_message_end m,
      )

  -- With a serializer that keeps its laws, the decoder returns every valid message whose four
  -- fields are each below 4 GiB from what the encoder wrote for it.
  pub decode_message-encode_message :
      (m : Message)
      → Message.is_valid m ≡ true
      → FitsMessage m
      → decode_message s (encode_message s m) ≡ some m
  decode_message-encode_message m valid fits =
      let (r, ends) =
        wire-Reads m (wire_message laws m) [] fits valid (sym (append-nil (wire_message laws m))) in
      rw (encode-wire laws m valid)
        (decode_of_Reads s (wire_message laws m) r (omega (arith, length-wire_message m)) ends)

  -- Whatever bytes the decoder accepts are the very bytes that the encoder writes for the message
  -- it returns: the format has one encoding for each message.
  pub encode_message-decode_message :
      (data' : Bytes) (m : Message)
      → All IsByte data'
      → decode_message s data' ≡ some m
      → encode_message s m ≡ data'
  encode_message-decode_message data' m bytes h =
      let (r, ends) = decode-Reads s data' m h in
      let (_, _, d₀) = read_u8_inverse laws data' 0 r.raw_type r.sender r.type_read in
      let (_, _, _, d₁) = (string_field laws).read_inverse data' r.sender _ _ bytes r.from_read in
      let (_, _, _, d₂) = (string_field laws).read_inverse data' r.recipient _ _ bytes r.to_read in
      let (_, _, _, d₃) =
        (string_field laws).read_inverse data' r.correlation _ _ bytes r.correlation_read in
      let (_, _, _, d₄) = (bytes_field laws).read_inverse data' r.body _ _ bytes r.payload_read in
      encode-wire laws m r.valid
      ∙ rw (r.typed, to_u8-from_u8 r.raw_type)
          (sym (
            d₀
            ∙ ap (◌∷◌ r.raw_type) (
                d₁
                ∙ ap (◌++◌ (wire_text laws m.from_node_id)) (
                    d₂
                    ∙ ap (◌++◌ (wire_text laws m.to_node_id)) (
                        d₃
                        ∙ ap (◌++◌ (wire_text laws m.correlation_id)) (
                            d₄
                            ∙ ap (◌++◌ (wire_text laws m.payload))
                                (ap (λ (o : ℕ). drop o data') ends ∙ drop_all data')
                            ∙ append-nil (wire_text laws m.payload)))))))

  Reads-FitsMessage :
      (data' : Bytes) (m : Message) → All IsByte data' → Reads s data' m → FitsMessage m
  Reads-FitsMessage data' m bytes r = record {
    from_node_id = ((string_field laws).read_inverse data' r.sender _ _ bytes r.from_read).0;
    to_node_id = ((string_field laws).read_inverse data' r.recipient _ _ bytes r.to_read).0;
    correlation_id =
        ((string_field laws).read_inverse data' r.correlation _ _ bytes r.correlation_read).0;
    payload = ((bytes_field laws).read_inverse data' r.body _ _ bytes r.payload_read).0;
  }

  -- If the decoder accepts some bytes, it refuses them with one or more elements added behind.
  pub decode_message_trailing :
      (data' : Bytes) (m : Message) (x : ℕ) (more : Bytes)
      → All IsByte data'
      → decode_message s data' ≡ some m
      → decode_message s (data' ++ x ∷ more) ≡ none
  decode_message_trailing data' m x more bytes h =
      let (r, ends) = decode-Reads s data' m h in
      let written : wire_message laws m ≡ data' =
        sym (encode-wire laws m r.valid) ∙ encode_message-decode_message data' m bytes h in
      let (q, stops) =
        wire-Reads m (data' ++ x ∷ more) (x ∷ more) (Reads-FitsMessage data' m bytes r) r.valid
          (ap (λ (d : Bytes). d ++ x ∷ more) (sym written)) in
      decode_left_over s (data' ++ x ∷ more) q
        (omega (arith, stops, ap length written, length-append data' (x ∷ more)))

  -- If the decoder accepts some bytes, it refuses every proper prefix of them.
  pub decode_message_truncated :
      (front : Bytes) (x : ℕ) (back : Bytes) (m : Message)
      → All IsByte (front ++ x ∷ back)
      → decode_message s (front ++ x ∷ back) ≡ some m
      → decode_message s front ≡ none
  decode_message_truncated front x back m bytes h = elim (Option-cases (decode_message s front)) [
    | inl refused ↦ refused
    | inr (n, e) ↦
        cc (h, decode_message_trailing front n x back (All-append_left IsByte front _ bytes) e)
  ]
