-- ===== src/Engine/Sizes.antt =====
-- The messages that an engine makes fit their fields.
use discovery.Base.{
  ℕ, zero, suc, ◌+◌, ◌≤◌, ◌<◌, ◌/◌, ◌%◌, ◌∷◌, [], ◌++◌, length, length-append, Bool-cases, inl, inr,
  arith,
}
use discovery.Base.Int.{ℤ, pos, negsuc}
use discovery.Base.Text
use discovery.Base.Text.{Bytes, codes, to_string}
use discovery.External.Serializer.{Serializer, SerializerLaws}
use discovery.External.Time.{Timestamps, Durations}
use discovery.External.Transport.{PeerInfos}
use discovery.Core.Announcement
use discovery.Core.Announcement.{Announcement}
use discovery.Core.Message
use discovery.Core.Message.{Message}
use discovery.Encoding.Fields.{FitsText, length-wire_text}
use discovery.Encoding.Wire.{FitsMessage}
use discovery.Backend.{Backend}
use discovery.Engine
use discovery.Engine.{Engine}
use discovery.Engine.Traffic
use discovery.Engine.AnnouncementCodec.{encode_announcement}
use discovery.Engine.AnnouncementWire.{encode_announcement-wire, length-wire_announcement}

length-decimal : (fuel n : ℕ) → length (Text.decimal fuel n) ≤ fuel
unfolding Text.decimal
length-decimal zero n = omega arith
length-decimal (suc fuel) n = ground (
  arith,
  length-decimal fuel (n / 10),
  length-append (Text.decimal fuel (n / 10)) ((n % 10 + 48) ∷ []),
)

length-to_string : (z : ℤ) → length (to_string z) ≤ 21
unfolding to_string
length-to_string (pos n) = omega (arith, length-decimal 20 n)
length-to_string (negsuc n) = omega (arith, length-decimal 20 (n + 1))

module _ {T : Type 0} ⦃ts : Timestamps T⦄ {s : Serializer} (laws : SerializerLaws s) where
  length-encode_announcement :
      (a : Announcement T)
      → length (encode_announcement s a) ≤ length a.node_id + length a.host + 18
  unfolding encode_announcement
  length-encode_announcement a = elim (Bool-cases (Announcement.is_valid a)) [
    | inl good ↦ rw (encode_announcement-wire laws a good) (
        omega (
          arith,
          length-wire_announcement laws a,
          length-wire_text laws a.node_id,
          length-wire_text laws a.host,
          laws.length-wire_u16 a.port,
          laws.length-wire_i64 (ts.millis a.timestamp),
        ))
    | inr bad ↦ rw (encode_announcement, bad) (omega arith)
  ]

module _ {W T P D : Type 0} ⦃ts : Timestamps T⦄ ⦃ds : Durations D⦄ ⦃infos : PeerInfos P⦄
    {s : Serializer} (laws : SerializerLaws s) (b : Backend W T) where
  -- What the engine says of itself is short.
  abbrev pub IsBrief : Engine W T P D → Type 0
  IsBrief e =
      let a = (Engine.make_local_announcement b e).0 in
      (length (Engine.local_node_id b e) + length a.node_id + length a.host < 4294960000)

  correlation_fits :
      (prefix : Bytes) (e : Engine W T P D)
      → length prefix ≤ 20
      → FitsText (Engine.make_correlation_id b prefix e).0
  unfolding Engine.make_correlation_id Engine.read_clock
  correlation_fits prefix e short =
      let z : ℤ = ts.millis (b.now e.world).0 in
      omega (
        arith,
        short,
        length-append prefix (codes "-" ++ to_string z),
        length-append (codes "-") (to_string z),
        length-to_string z,
      )

  payload_fits :
      (e : Engine W T P D)
      → IsBrief e
      → FitsText (encode_announcement s (Engine.make_local_announcement b e).0)
  payload_fits e brief =
      omega (arith, brief, length-encode_announcement laws (Engine.make_local_announcement b e).0)

  pub probe_fits : (e : Engine W T P D) → IsBrief e → FitsMessage (Engine.make_probe_message b e).0
  unfolding Engine.make_probe_message Message.probe Message.make
  probe_fits e brief = record {
    from_node_id = omega (arith, brief);
    to_node_id = omega arith;
    correlation_id = correlation_fits (codes "probe") e (omega arith);
    payload = omega arith;
  }

  pub announce_fits :
      (e : Engine W T P D) → IsBrief e → FitsMessage (Traffic.make_announce_message s b e).0
  unfolding Traffic.make_announce_message Message.announce Message.make
  announce_fits e brief = record {
    from_node_id = omega (arith, brief);
    to_node_id = omega arith;
    correlation_id =
        correlation_fits (codes "announce") (Engine.make_local_announcement b e).1 (omega arith);
    payload = payload_fits e brief;
  }

  pub reply_fits :
      (to correlation_id : Bytes) (e : Engine W T P D)
      → FitsText to
      → FitsText correlation_id
      → IsBrief e
      → FitsMessage (Traffic.make_reply_message s b to correlation_id e).0
  unfolding Traffic.make_reply_message Message.reply Message.make
  reply_fits to correlation_id e short known brief = record {
    from_node_id = omega (arith, brief);
    to_node_id = short;
    correlation_id = known;
    payload = payload_fits e brief;
  }
