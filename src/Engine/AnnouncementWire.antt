-- ===== src/Engine/AnnouncementWire.antt =====
-- The engine's announcement codec in terms of wire fields: both directions of its round trip.
use discovery.Base.{
  ℕ, ◌+◌, ◌==◌, ◌≡◌, refl, sym, ap, subst, ◌∙◌, [], ◌++◌, some, true, not, length, is_empty, drop,
  drop_all, All, arith, else_some, >>=-eq-some, length-append, drop-append_left, is_empty_long,
}
use discovery.Base.Int.{ℤ}
use discovery.Base.Text.{Bytes, IsByte}
use mathlib.Core.Option.{some-injective}
use mathlib.Core.List.{append-nil, append_assoc}
use discovery.External.Serializer.{Serializer, SerializerLaws, IsField, FitsU16, FitsI64}
use discovery.External.Time.{Timestamps, TimestampLaws}
use discovery.Core.Announcement
use discovery.Core.Announcement.{Announcement}
use discovery.Encoding.Encode
use discovery.Encoding.Decode
use discovery.Encoding.Fields.{wire_text, FitsText, string_field, length-wire_text, drop_past}
use discovery.Engine.AnnouncementCodec.{
  append_string, read_string, encode_announcement, decode_span, decode_announcement,
}

module _ {s : Serializer} (laws : SerializerLaws s) where
  -- The engine's string fields are those of the message codec.
  pub engine_field : IsField (append_string s) (read_string s) (wire_text laws) FitsText
  unfolding append_string read_string Encode.append_string Decode.read_string
  engine_field = string_field laws

module _ {s : Serializer} (laws : SerializerLaws s) {T : Type 0} ⦃ts : Timestamps T⦄ where
  -- The fields are in the range of their widths.
  pub record FitsAnnouncement (a : Announcement T) : Type 0 where
    pub node_id : FitsText a.node_id
    pub host : FitsText a.host
    pub port : FitsU16 a.port
    pub timestamp : FitsI64 (ts.millis a.timestamp)

  abbrev pub wire_announcement : Announcement T → Bytes
  wire_announcement a =
      wire_text laws a.node_id
      ++ (wire_text laws a.host ++ (laws.wire_u16 a.port ++ laws.wire_i64 (ts.millis a.timestamp)))

  pub encode_announcement-wire :
      (a : Announcement T)
      → Announcement.is_valid a ≡ true
      → encode_announcement s a ≡ wire_announcement a
  unfolding encode_announcement
  encode_announcement-wire a h = rw h (
      simp
        (laws.i64.append_wire, laws.u16.append_wire, (engine_field laws).append_wire, append_assoc))

  pub length-wire_announcement :
      (a : Announcement T)
      → length (wire_text laws a.node_id)
          + length (wire_text laws a.host)
          + length (laws.wire_u16 a.port)
          + length (laws.wire_i64 (ts.millis a.timestamp))
        ≡ length (wire_announcement a)
  length-wire_announcement a = omega (arith, length-append {0})

  decode_span_ok :
      (a : Announcement T) (buffer : Bytes) (o₁ o₂ o₃ : ℕ)
      → read_string s buffer 0 ≡ some (a.node_id, o₁)
      → read_string s buffer o₁ ≡ some (a.host, o₂)
      → s.read_u16 buffer o₂ ≡ some (a.port, o₃)
      → s.read_i64 buffer o₃ ≡ some (ts.millis a.timestamp, length buffer)
      → ts.from_millis (ts.millis a.timestamp) ≡ a.timestamp
      → Announcement.is_valid a ≡ true
      → decode_span s buffer ≡ some a
  unfolding decode_span
  decode_span_ok a buffer o₁ o₂ o₃ r₁ r₂ r₃ r₄ t valid = rw (r₁, r₂, r₃, r₄, t) (ground arith)

  -- With a serializer and timestamps that keep their laws, `decode_announcement` returns every
  -- valid announcement whose fields are in the range of their widths from what
  -- `encode_announcement` wrote.
  pub decode_announcement-encode_announcement :
      TimestampLaws ts
      → (a : Announcement T) → Announcement.is_valid a ≡ true
      → FitsAnnouncement a
      → decode_announcement s (encode_announcement s a) ≡ some a
  unfolding decode_announcement
  decode_announcement-encode_announcement times a valid fits =
      let w₁ : Bytes = wire_text laws a.node_id in
      let w₂ : Bytes = wire_text laws a.host in
      let w₃ : Bytes = laws.wire_u16 a.port in
      let w₄ : Bytes = laws.wire_i64 (ts.millis a.timestamp) in
      let data' : Bytes = wire_announcement a in
      let o₁ : ℕ = length w₁ in
      let o₂ : ℕ = o₁ + length w₂ in
      let o₃ : ℕ = o₂ + length w₃ in
      let d₁ : drop o₁ data' ≡ w₂ ++ (w₃ ++ w₄) = drop-append_left w₁ (w₂ ++ (w₃ ++ w₄)) in
      let d₂ : drop o₂ data' ≡ w₃ ++ w₄ = drop_past data' w₂ (w₃ ++ w₄) o₁ d₁ in
      let d₃ : drop o₃ data' ≡ w₄ = drop_past data' w₃ w₄ o₂ d₂ in
      let r₁ : read_string s data' 0 ≡ some (a.node_id, 0 + o₁) =
        (engine_field laws).read_wire a.node_id data' (w₂ ++ (w₃ ++ w₄)) 0 fits.node_id refl in
      let r₄ : s.read_i64 data' o₃ ≡ some (ts.millis a.timestamp, length data') =
        subst (λ o. s.read_i64 data' o₃ ≡ some (ts.millis a.timestamp, o))
          (omega (arith, length-wire_announcement a))
          (laws.i64.read_wire (ts.millis a.timestamp) data' [] o₃ fits.timestamp
            (d₃ ∙ sym (append-nil w₄))) in
      rw
        (
          encode_announcement-wire a valid,
          is_empty_long data'
              (omega (arith, length-wire_announcement a, length-wire_text laws a.node_id)),
        )
        (decode_span_ok a data' o₁ o₂ o₃
          (subst (λ o. read_string s data' 0 ≡ some (a.node_id, o)) (omega arith) r₁)
          ((engine_field laws).read_wire a.host data' (w₃ ++ w₄) o₁ fits.host d₁)
          (laws.u16.read_wire a.port data' w₄ o₂ fits.port d₂) r₄
          (times.from_millis-millis a.timestamp) valid)

  abbrev announcement_of : Bytes → Bytes → ℕ → ℤ → Announcement T
  announcement_of node_id host port millis = record {
    node_id = node_id;
    host = host;
    port = port;
    timestamp = ts.from_millis millis;
  }

  fields-wire_announcement :
      TimestampLaws ts
      → (buffer node_id host : Bytes) (port : ℕ) (millis : ℤ) (o₁ o₂ o₃ : ℕ) → All IsByte buffer
      → read_string s buffer 0 ≡ some (node_id, o₁)
      → read_string s buffer o₁ ≡ some (host, o₂)
      → s.read_u16 buffer o₂ ≡ some (port, o₃)
      → s.read_i64 buffer o₃ ≡ some (millis, length buffer)
      → (wire_announcement (announcement_of node_id host port millis) ≡ buffer)
        × FitsAnnouncement (announcement_of node_id host port millis)
  fields-wire_announcement times buffer node_id host port millis o₁ o₂ o₃ bytes r₁ r₂ r₃ r₄ =
      let (f₁, _, _, d₁) = (engine_field laws).read_inverse buffer 0 node_id o₁ bytes r₁ in
      let (f₂, _, _, d₂) = (engine_field laws).read_inverse buffer o₁ host o₂ bytes r₂ in
      let (f₃, _, _, d₃) = laws.u16.read_inverse buffer o₂ port o₃ bytes r₃ in
      let (f₄, _, _, d₄) = laws.i64.read_inverse buffer o₃ millis (length buffer) bytes r₄ in
      let same : ts.millis (ts.from_millis millis) ≡ millis = times.millis-from_millis millis f₄ in
      let w₄ : Bytes = laws.wire_i64 millis in
      let last : drop o₃ buffer ≡ w₄ = d₄ ∙ ap (◌++◌ w₄) (drop_all buffer) ∙ append-nil w₄ in
      (
        rw same (
            sym (
              d₁
              ∙ ap (◌++◌ (wire_text laws node_id)) (
                  d₂
                  ∙ ap (◌++◌ (wire_text laws host)) (d₃ ∙ ap (◌++◌ (laws.wire_u16 port)) last)))),
        record { node_id = f₁; host = f₂; port = f₃; timestamp = subst FitsI64 (sym same) f₄ },
      )

  -- With a serializer and timestamps that keep their laws, the bytes that `decode_announcement`
  -- accepts are those that `encode_announcement` writes for its result, whose fields are in the
  -- range of their widths.
  pub encode_announcement-decode_announcement :
      TimestampLaws ts
      → (buffer : Bytes) (a : Announcement T) → All IsByte buffer
      → decode_announcement s buffer ≡ some a
      → (encode_announcement s a ≡ buffer) × FitsAnnouncement a
  unfolding decode_announcement decode_span
  encode_announcement-decode_announcement times buffer a bytes h =
      let (full, h₀) = else_some (is_empty buffer) _ h in
      let ((node_id, o₁), r₁, h₁) = >>=-eq-some (read_string s buffer 0) _ h₀ in
      let ((host, o₂), r₂, h₂) = >>=-eq-some (read_string s buffer o₁) _ h₁ in
      let ((port, o₃), r₃, h₃) = >>=-eq-some (s.read_u16 buffer o₂) _ h₂ in
      let ((millis, o₄), r₄, h₄) = >>=-eq-some (s.read_i64 buffer o₃) _ h₃ in
      let (ends, h₅) = else_some (not (o₄ == length buffer)) _ h₄ in
      let read : Announcement T = announcement_of node_id host port millis in
      let (valid, h₆) = else_some (not (Announcement.is_valid read)) _ h₅ in
      let (e, fits) =
        fields-wire_announcement times buffer node_id host port millis o₁ o₂ o₃ bytes r₁ r₂ r₃
          (subst (λ o. s.read_i64 buffer o₃ ≡ some (millis, o)) (ground arith) r₄) in
      subst (λ b. (encode_announcement s b ≡ buffer) × FitsAnnouncement b) (some-injective _ _ h₆)
        (encode_announcement-wire read (ground arith) ∙ e, fits)
