-- ===== src/Engine/Answering.antt =====
-- What a probe is answered with.
use discovery.Base.{[], ◌≡◌, refl, some, arith, true}
use discovery.Base.Text.{Bytes}
use discovery.External.Serializer.{Serializer, SerializerLaws}
use discovery.External.Time.{Timestamps, Durations, TimestampLaws}
use discovery.External.Transport.{PeerInfos}
use discovery.Types.MessageType
use discovery.Core.Announcement
use discovery.Core.Config
use discovery.Core.Config.{Config}
use discovery.Core.Context
use discovery.Core.Context.{Context, ok}
use discovery.Core.Message
use discovery.Core.Message.{Message}
use discovery.Core.Envelope
use discovery.Core.Envelope.{Envelope}
use discovery.Backend.{Backend}
use discovery.Client
use discovery.Engine
use discovery.Engine.{Engine}
use discovery.Engine.Traffic
use discovery.Engine.AnnouncementCodec.{encode_announcement, decode_announcement}
use discovery.Engine.AnnouncementWire.{FitsAnnouncement, decode_announcement-encode_announcement}
use discovery.Engine.Hearing.{own_announcement, own_announcement_valid, config_checked_valid}

module _ {T D : Type 0} ⦃ts : Timestamps T⦄ ⦃ds : Durations D⦄ (s : Serializer) where
  -- An answer to a probe: to its sender, with its correlation id, and with the engine's endpoint.
  pub record Answers (config : Config D) (t : T) (probe answer : Envelope T) : Type 0 where
    pub type : answer.message.type ≡ MessageType.reply
    pub from_node_id : answer.message.from_node_id ≡ config.node_id
    pub to_node_id : answer.message.to_node_id ≡ probe.message.from_node_id
    pub correlation_id : answer.message.correlation_id ≡ probe.message.correlation_id
    pub to_host : answer.to_host ≡ probe.from_host
    pub to_port : answer.to_port ≡ probe.from_port
    pub attempts : answer.retry_count ≡ 1
    pub payload : decode_announcement s answer.message.payload ≡ some (own_announcement config t)

  abbrev answer_message : Config D → T → Bytes → Bytes → Message
  answer_message config t to correlation_id = record {
    type = MessageType.reply;
    from_node_id = config.node_id;
    to_node_id = to;
    correlation_id = correlation_id;
    payload = encode_announcement s (own_announcement config t);
  }

  -- With the times of the announcement, of the envelope and of the attempt.
  abbrev answer_to : Config D → T → T → T → Envelope T → Envelope T
  answer_to config t made sent probe = record {
    message = answer_message config t probe.message.from_node_id probe.message.correlation_id;
    from_host = [];
    from_port = 0;
    to_host = probe.from_host;
    to_port = probe.from_port;
    timestamp = made;
    retry_count = 1;
    last_attempt_at = sent;
  }

module _ {W T P D : Type 0} ⦃ts : Timestamps T⦄ ⦃ds : Durations D⦄ ⦃infos : PeerInfos P⦄
    {s : Serializer} (laws : SerializerLaws s) (times : TimestampLaws ts) (b : Backend W T) where
  make_reply_message_value :
      (config : Config D) (to correlation_id : Bytes) (e : Engine W T P D)
      → Context.config_checked e.context ≡ ok config
      → Traffic.make_reply_message s b to correlation_id e ≡ (
        answer_message s config (b.now e.world).0 to correlation_id,
        record e { world = (b.now e.world).1 },
      )
  unfolding Traffic.make_reply_message Engine.make_local_announcement Engine.local_node_id
      Engine.read_clock Message.reply Message.make Announcement.make
  make_reply_message_value config to correlation_id e h = ground (arith, h)

  -- With a serializer and timestamps that keep their laws: an engine with a valid configuration
  -- answers a probe with a source, at valid times and with fields that fit their widths, by
  -- handing one envelope to the backend: a reply to the probe's source and sender, with its
  -- correlation id, in the first attempt, whose payload decodes to the engine's own announcement.
  -- It returns what the backend returns, and only its world changes.
  pub handle_probe-Answers :
      (config : Config D) (probe : Envelope T) (e : Engine W T P D)
      → Context.config_checked e.context ≡ ok config
      → Envelope.has_source probe ≡ true
      → ts.is_valid (b.now e.world).0 ≡ true
      → ts.is_valid (b.now (b.now e.world).1).0 ≡ true
      → FitsAnnouncement laws (own_announcement config (b.now e.world).0)
      → (answer : Envelope T) × Answers s config (b.now e.world).0 probe answer
        × (Traffic.handle_probe s b probe e ≡ (
            let w = (b.now (b.now (b.now e.world).1).1).1 in
            ((b.send answer w).0, record e { world = (b.send answer w).1 })))
  unfolding Traffic.handle_probe Engine.make_outbound_envelope Engine.client_send Engine.read_clock
      Envelope.make_outbound Envelope.make Envelope.mark_attempt Client.send
  handle_probe-Answers config probe e checked source timed stamped fits =
      let (t, w₁) = b.now e.world in
      let (made, w₂) = b.now w₁ in
      let (sent, w₃) = b.now w₂ in
      let outbound : Envelope T = record (answer_to s config t made sent probe) {
        retry_count = 0;
        last_attempt_at = ts.unset;
      } in
      let sendable : Envelope.is_valid outbound ≡ true =
        unfold Envelope.is_valid Message.is_valid MessageType.is_valid Config.is_valid in
        ground (arith, config_checked_valid e.context config checked, stamped) in
      let directed : Envelope.has_destination outbound ≡ true =
        unfold Envelope.has_destination Envelope.has_source in ground (arith, source) in
      let valid : Config.is_valid config ≡ true = config_checked_valid e.context config checked in
      (
        answer_to s config t made sent probe,
        record {
          type = refl;
          from_node_id = refl;
          to_node_id = refl;
          correlation_id = refl;
          to_host = refl;
          to_port = refl;
          attempts = refl;
          payload =
              decode_announcement-encode_announcement laws times (own_announcement config t)
                (own_announcement_valid config t valid timed) fits;
        },
        rw
            (
              Traffic.handle_probe,
              source,
              make_reply_message_value config probe.message.from_node_id
                  probe.message.correlation_id e checked,
              sendable,
              directed,
            )
            refl,
      )
