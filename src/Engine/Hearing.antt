-- ===== src/Engine/Hearing.antt =====
-- What one engine learns from the announcement of another.
use discovery.Base.{
  ◌≡◌, ◌≢◌, ◌⊎◌, is_empty, refl, sym, ap, subst, ◌∙◌, some, arith, Bool, true, false, inl, inr, not,
}
use discovery.Base.Text.{Bytes, same_text, same_text_iff}
use discovery.External.Serializer.{Serializer, SerializerLaws}
use discovery.External.Time.{Timestamps, Durations, TimestampLaws}
use discovery.External.Transport.{PeerInfos}
use discovery.Types.MessageType
use discovery.Core.Config
use discovery.Core.Config.{Config}
use discovery.Core.Context
use discovery.Core.Context.{Context, ok}
use discovery.Core.Announcement
use discovery.Core.Announcement.{Announcement}
use discovery.Core.Message
use discovery.Core.Message.{Message}
use discovery.Core.Envelope.{Envelope}
use discovery.Peer.Registry
use discovery.Peer.Registry.{Registry}
use discovery.Peer.Registry.View.{announce-view, announced}
use discovery.Encoding.Encode.{encode_message}
use discovery.Encoding.Decode.{decode_message}
use discovery.Encoding.Wire.{FitsMessage}
use discovery.Encoding.RoundTrip.{decode_message-encode_message}
use discovery.Backend.{Backend}
use discovery.Engine
use discovery.Engine.Frame.{filing_time-kept}
use discovery.Types.Status.{Status}
use discovery.Engine.{Engine}
use discovery.Engine.Traffic
use discovery.Engine.AnnouncementCodec.{encode_announcement, decode_announcement}
use discovery.Engine.AnnouncementWire.{FitsAnnouncement, decode_announcement-encode_announcement}

module _ {W P D : Type 0} ⦃ds : Durations D⦄ where
  pub config_checked_valid :
      (c : Context W P D) (config : Config D)
      → Context.config_checked c ≡ ok config
      → Config.is_valid config ≡ true
  unfolding Context.config_checked
  config_checked_valid c config h = ground arith

module _ {T D : Type 0} ⦃ts : Timestamps T⦄ ⦃ds : Durations D⦄ where
  -- What an engine says of itself.
  abbrev pub own_announcement : Config D → T → Announcement T
  own_announcement config t = record {
    node_id = config.node_id;
    host = config.announce_host;
    port = config.announce_port;
    timestamp = t;
  }

  pub own_announcement_valid :
      (config : Config D) (t : T)
      → Config.is_valid config ≡ true
      → ts.is_valid t ≡ true
      → Announcement.is_valid (own_announcement config t) ≡ true
  unfolding Config.is_valid Announcement.is_valid
  own_announcement_valid config t h v = ground (arith, h, v)

module _ {W T P D : Type 0} ⦃ts : Timestamps T⦄ ⦃ds : Durations D⦄ ⦃infos : PeerInfos P⦄
    (s : Serializer) (b : Backend W T) where
  learn_registry :
      (a : Announcement T) (e : Engine W T P D)
      → (Engine.integrate_with_transport a (Engine.upsert_discovered_peer b a e)).registry
        ≡ Registry.upsert_announcement (Engine.filing_time b a e).0 a e.registry
  unfolding Engine.upsert_discovered_peer Engine.integrate_with_transport
  learn_registry a e =
      let same : (Engine.filing_time b a e).1.registry ≡ e.registry =
        ap (λ (x : Context W P D × Registry T × Status). x.1) (filing_time-kept b a e) in
      ground (arith, same)

  -- The engine has filed the announced node: as it was known, or new, and seen at the time that
  -- the clock gave for it.
  abbrev pub Learns : Announcement T → Engine W T P D → Bool × Engine W T P D → Type 0
  Learns a e result =
      (result.0 ≡ true)
      × (Registry.get a.node_id result.1.registry
          ≡ some (announced (Engine.filing_time b a e).0 a (Registry.get a.node_id e.registry)))

  handle_announce-Learns :
      (m : Envelope T) (e : Engine W T P D) (a : Announcement T)
      → decode_announcement s m.message.payload ≡ some a
      → Announcement.is_valid a ≡ true
      → same_text a.node_id (Engine.local_node_id b e) ≡ false
      → Learns a e (Traffic.handle_announce s b m e)
  unfolding Traffic.handle_announce
  handle_announce-Learns m e a read valid other =
      rw
        (
          Traffic.handle_announce,
          read,
          valid,
          other,
          learn_registry a e,
          announce-view (Engine.filing_time b a e).0 a e.registry a.node_id,
          (same_text_iff a.node_id a.node_id).1 refl,
          valid,
        )
        (refl, refl)

  dispatch-Learns :
      (laws : SerializerLaws s)
      → TimestampLaws ts
      → (m : Envelope T) (e : Engine W T P D) (a : Announcement T)
      → (m.message.type ≡ MessageType.announce) ⊎ (m.message.type ≡ MessageType.reply)
      → m.message.from_node_id ≡ a.node_id
      → m.message.payload ≡ encode_announcement s a
      → Announcement.is_valid a ≡ true
      → FitsAnnouncement laws a
      → Engine.local_node_id b e ≢ a.node_id
      → Learns a e (Traffic.dispatch s b m e)
  unfolding Traffic.dispatch Traffic.handle_reply Traffic.handle_announce Message.is_valid
      MessageType.is_valid
  dispatch-Learns laws times m e a type from payload valid fits other =
      let read : decode_announcement s m.message.payload ≡ some a =
        rw payload (decode_announcement-encode_announcement laws times a valid fits) in
      let distinct : same_text a.node_id (Engine.local_node_id b e) ≡ false =
        ground (arith, same_text_iff a.node_id (Engine.local_node_id b e)) in
      let named : not (is_empty a.node_id) ≡ true = unfold Announcement.is_valid in ground arith in
      let learns : Learns a e (Traffic.handle_announce s b m e) =
        handle_announce-Learns m e a read valid distinct in
      elim type [
        | inl announce ↦ rw (Traffic.dispatch, announce, from, named, distinct) learns
        | inr reply ↦ rw (Traffic.dispatch, reply, from, named, distinct) learns
      ]

  pub announce_fields :
      (e : Engine W T P D) (config : Config D)
      → Context.config_checked e.context ≡ ok config
      → let m = (Traffic.make_announce_message s b e).0 in
        (m.type ≡ MessageType.announce)
        × (m.from_node_id ≡ config.node_id)
        × (m.payload ≡ encode_announcement s (own_announcement config (b.now e.world).0))
  unfolding Traffic.make_announce_message Engine.make_local_announcement Engine.local_node_id
      Engine.make_correlation_id Engine.read_clock Message.announce Message.make Announcement.make
  announce_fields e config h = ground (arith, h)

  pub reply_fields :
      (to cid : Bytes) (e : Engine W T P D) (config : Config D)
      → Context.config_checked e.context ≡ ok config
      → let m = (Traffic.make_reply_message s b to cid e).0 in
        (m.type ≡ MessageType.reply)
        × (m.from_node_id ≡ config.node_id)
        × (m.payload ≡ encode_announcement s (own_announcement config (b.now e.world).0))
  unfolding Traffic.make_reply_message Engine.make_local_announcement Engine.local_node_id
      Engine.read_clock Message.reply Message.make Announcement.make
  reply_fields to cid e config h = ground (arith, h)

module _ {D : Type 0} ⦃ds : Durations D⦄ where
  pub spoken_valid :
      (config : Config D) (m : Message)
      → Config.is_valid config ≡ true
      → (m.type ≡ MessageType.announce) ⊎ (m.type ≡ MessageType.reply)
      → m.from_node_id ≡ config.node_id
      → Message.is_valid m ≡ true
  unfolding Message.is_valid MessageType.is_valid Config.is_valid
  spoken_valid config m valid type from = ground (arith, valid, from)

module _ {V W T P D : Type 0} ⦃ts : Timestamps T⦄ ⦃ds : Durations D⦄ ⦃infos : PeerInfos P⦄
    {s : Serializer} (laws : SerializerLaws s) (times : TimestampLaws ts) (b : Backend V T)
    (c : Backend W T) where
  spoken_heard :
      (config : Config D) (t : T) (m : Message) (receiver : Engine W T P D) (envelope : Envelope T)
      → Config.is_valid config ≡ true
      → ts.is_valid t ≡ true
      → FitsAnnouncement laws (own_announcement config t)
      → FitsMessage m
      → (m.type ≡ MessageType.announce) ⊎ (m.type ≡ MessageType.reply)
      → m.from_node_id ≡ config.node_id
      → m.payload ≡ encode_announcement s (own_announcement config t)
      → Engine.local_node_id c receiver ≢ config.node_id
      → envelope.message ≡ m
      → (decode_message s (encode_message s m) ≡ some m)
        × Learns s c (own_announcement config t) receiver (Traffic.dispatch s c envelope receiver)
  spoken_heard config t m receiver envelope valid timed fits small type from payload other carried =
      let named : Message.is_valid m ≡ true = spoken_valid config m valid type from in
      (
        decode_message-encode_message laws m named small,
        dispatch-Learns s c laws times envelope receiver (own_announcement config t)
            (subst (λ (n : Message). (n.type ≡ MessageType.announce) ⊎ (n.type ≡ MessageType.reply))
              (sym carried) type)
            (ap (λ (n : Message). n.from_node_id) carried ∙ from)
            (ap (λ (n : Message). n.payload) carried ∙ payload)
            (own_announcement_valid config t valid timed) fits other,
      )

  -- With a serializer and timestamps that keep their laws: the announcement message of an engine
  -- with a valid configuration, made at a valid time and with fields that fit their widths,
  -- survives the message codec; and an engine of another node id that dispatches an envelope with
  -- it returns true and files the sender's node id, host and port and the time of sending, Alive
  -- and seen at the time that its clock gives for it.
  pub announcement_heard :
      (config : Config D) (sender : Engine V T P D) (receiver : Engine W T P D)
      (envelope : Envelope T)
      → Context.config_checked sender.context ≡ ok config
      → ts.is_valid (b.now sender.world).0 ≡ true
      → FitsAnnouncement laws (own_announcement config (b.now sender.world).0)
      → FitsMessage (Traffic.make_announce_message s b sender).0
      → Engine.local_node_id c receiver ≢ config.node_id
      → envelope.message ≡ (Traffic.make_announce_message s b sender).0
      → (decode_message s (encode_message s (Traffic.make_announce_message s b sender).0)
          ≡ some envelope.message)
        × Learns s c
            (own_announcement config (b.now sender.world).0)
            receiver
            (Traffic.dispatch s c envelope receiver)
  announcement_heard config sender receiver envelope checked timed fits small other carried =
      let (type, from, payload) = announce_fields s b sender config checked in
      let (wire, learns) =
        spoken_heard config _ _ receiver envelope
          (config_checked_valid sender.context config checked) timed fits small (inl type) from
          payload other carried in
      (wire ∙ ap some (sym carried), learns)

  -- The same of the reply message of such an engine: with lawful serializer and timestamps it
  -- survives the message codec, and an engine of another node id that dispatches an envelope with
  -- it returns true and files the replier.
  pub reply_heard :
      (config : Config D) (to correlation_id : Bytes) (sender : Engine V T P D)
      (receiver : Engine W T P D) (envelope : Envelope T)
      → Context.config_checked sender.context ≡ ok config
      → ts.is_valid (b.now sender.world).0 ≡ true
      → FitsAnnouncement laws (own_announcement config (b.now sender.world).0)
      → FitsMessage (Traffic.make_reply_message s b to correlation_id sender).0
      → Engine.local_node_id c receiver ≢ config.node_id
      → envelope.message ≡ (Traffic.make_reply_message s b to correlation_id sender).0
      → (decode_message s
            (encode_message s (Traffic.make_reply_message s b to correlation_id sender).0)
          ≡ some envelope.message)
        × Learns s c
            (own_announcement config (b.now sender.world).0)
            receiver
            (Traffic.dispatch s c envelope receiver)
  reply_heard config to correlation_id sender receiver envelope checked timed fits small other
        carried =
      let (type, from, payload) = reply_fields s b to correlation_id sender config checked in
      let (wire, learns) =
        spoken_heard config _ _ receiver envelope
          (config_checked_valid sender.context config checked) timed fits small (inr type) from
          payload other carried in
      (wire ∙ ap some (sym carried), learns)
