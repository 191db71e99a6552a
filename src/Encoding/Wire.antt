-- ===== src/Encoding/Wire.antt =====
-- What the encoder writes, and the reads that the decoder makes, in terms of the wire fields.
use discovery.Base.{ℕ, ◌≤◌, ◌≡◌, refl, ◌∷◌, ◌++◌, none, some, arith}
use discovery.Base.{true, not, length, >>=-eq-some, ltb}
use discovery.Base.Text.{Bytes}
use discovery.External.Serializer.{Serializer, SerializerLaws}
use discovery.Types.MessageType
use discovery.Core.Message
use discovery.Core.Message.{Message}
use discovery.Encoding.Encode.{encode_message}
use discovery.Encoding.Decode.{read_u8, read_string, read_bytes, decode_message}
use discovery.Encoding.Fields.{wire_text, FitsText, string_field, bytes_field}
use mathlib.Core.List.{append_assoc}
use mathlib.Core.Option.{some-injective}
use discovery.Base.{Option, else_some, subst, ◌==◌, ◌≢◌}

-- Every field of the message is below 4 GiB.
pub record FitsMessage (m : Message) : Type 0 where
  pub from_node_id : FitsText m.from_node_id
  pub to_node_id : FitsText m.to_node_id
  pub correlation_id : FitsText m.correlation_id
  pub payload : FitsText m.payload

abbrev pub message_of : ℕ → Bytes → Bytes → Bytes → Bytes → Message
message_of raw from to correlation payload = record {
  type = MessageType.from_u8 raw;
  from_node_id = from;
  to_node_id = to;
  correlation_id = correlation;
  payload = payload;
}

module _ (s : Serializer) (data' : Bytes) where
  -- A successful run of the decoder: the five fields, and the cursor behind each.
  pub record Reads (m : Message) : Type 0 where
    pub raw_type : ℕ
    pub sender : ℕ
    pub recipient : ℕ
    pub correlation : ℕ
    pub body : ℕ
    pub finish : ℕ
    pub type_read : read_u8 s data' 0 ≡ some (raw_type, sender)
    pub from_read : read_string s data' sender ≡ some (m.from_node_id, recipient)
    pub to_read : read_string s data' recipient ≡ some (m.to_node_id, correlation)
    pub correlation_read : read_string s data' correlation ≡ some (m.correlation_id, body)
    pub payload_read : read_bytes s data' body ≡ some (m.payload, finish)
    pub typed : m.type ≡ MessageType.from_u8 raw_type
    pub valid : Message.is_valid m ≡ true

  -- The decoder accepts if the fields end with the data, and refuses if bytes are left over.
  pub decode_of_Reads :
      {m : Message} (r : Reads m)
      → 17 ≤ length data'
      → r.finish ≡ length data'
      → decode_message s data' ≡ some m
  unfolding decode_message
  decode_of_Reads r h e = ground arith

  pub decode_left_over :
      {m : Message} (r : Reads m) → r.finish ≢ length data' → decode_message s data' ≡ none
  unfolding decode_message
  decode_left_over r e = ground arith

  fields-Reads :
      (m : Message) (raw : ℕ) (from to correlation payload : Bytes) (o₁ o₂ o₃ o₄ : ℕ)
      → read_u8 s data' 0 ≡ some (raw, o₁)
      → read_string s data' o₁ ≡ some (from, o₂)
      → read_string s data' o₂ ≡ some (to, o₃)
      → read_string s data' o₃ ≡ some (correlation, o₄)
      → read_bytes s data' o₄ ≡ some (payload, length data')
      → Message.is_valid (message_of raw from to correlation payload) ≡ true
      → ◌≡◌ {A = Option Message} (some (message_of raw from to correlation payload)) (some m)
      → (r : Reads m) × (r.finish ≡ length data')
  fields-Reads m raw from to correlation payload o₁ o₂ o₃ o₄ r₁ r₂ r₃ r₄ r₅ valid e =
      subst (λ n. (r : Reads n) × (r.finish ≡ length data')) (some-injective _ _ e)
        (
          record {
            raw_type = raw;
            sender = o₁;
            recipient = o₂;
            correlation = o₃;
            body = o₄;
            finish = length data';
            type_read = r₁;
            from_read = r₂;
            to_read = r₃;
            correlation_read = r₄;
            payload_read = r₅;
            typed = refl;
            valid = valid;
          },
          refl,
        )

  pub decode-Reads :
      (m : Message) → decode_message s data' ≡ some m → (r : Reads m) × (r.finish ≡ length data')
  unfolding decode_message
  decode-Reads m h =
      let (long, h₀) = else_some (ltb (length data') 17) _ h in
      let ((raw, o₁), r₁, h₁) = >>=-eq-some (read_u8 s data' 0) _ h₀ in
      let ((from, o₂), r₂, h₂) = >>=-eq-some (read_string s data' o₁) _ h₁ in
      let ((to, o₃), r₃, h₃) = >>=-eq-some (read_string s data' o₂) _ h₂ in
      let ((correlation, o₄), r₄, h₄) = >>=-eq-some (read_string s data' o₃) _ h₃ in
      let ((payload, o₅), r₅, h₅) = >>=-eq-some (read_bytes s data' o₄) _ h₄ in
      let (ends, h₆) = else_some (not (o₅ == length data')) _ h₅ in
      let (valid, h₇) =
        else_some (not (Message.is_valid (message_of raw from to correlation payload))) _ h₆ in
      fields-Reads m raw from to correlation payload o₁ o₂ o₃ o₄ r₁ r₂ r₃ r₄
        (subst (λ o. read_bytes s data' o₄ ≡ some (payload, o)) (ground arith) r₅) (ground arith) h₇

module _ {s : Serializer} (laws : SerializerLaws s) where
  abbrev pub wire_message : Message → Bytes
  wire_message m =
      MessageType.to_u8 m.type
      ∷ (wire_text laws m.from_node_id
          ++ (wire_text laws m.to_node_id
              ++ (wire_text laws m.correlation_id ++ wire_text laws m.payload)))

  pub encode-wire : (m : Message) → Message.is_valid m ≡ true → encode_message s m ≡ wire_message m
  unfolding encode_message
  encode-wire m h =
      rw h (simp ((bytes_field laws).append_wire, (string_field laws).append_wire, append_assoc))
