-- ===== src/Tests/Engine.antt =====
-- Two engines on concrete worlds.
use discovery.Base.{
  All, subst, ℕ, ◌+◌, ◌≡◌, ◌≢◌, refl, List, [], ◌∷◌, none, some, true, false, arith,
}
use discovery.Base.Int.{ℤ, pos}
use discovery.Base.Text
use discovery.Base.Text.{IsByte, Bytes, codes, same_text}
use discovery.External.Transport.{Transport}
use discovery.Types.MessageType
use discovery.Types.Status
use discovery.Core.Announcement
use discovery.Core.Announcement.{Announcement}
use discovery.Core.Config
use discovery.Core.Config.{Config}
use discovery.Core.Context
use discovery.Core.Context.{Context, ok}
use discovery.Core.Message
use discovery.Core.Message.{Message}
use discovery.Core.Envelope
use discovery.Core.Envelope.{Envelope}
use discovery.Encoding.Encode.{encode_message}
use discovery.Encoding.Decode.{decode_message}
use discovery.Encoding.Wire.{FitsMessage}
use discovery.Backend.{Backend}
use discovery.Engine
use discovery.Engine.{Engine}
use discovery.Engine.Traffic
use discovery.Engine.AnnouncementCodec.{
  append_string, encode_announcement, decode_announcement, decode_span, read_string,
}
use discovery.Engine.AnnouncementWire.{
  FitsAnnouncement, decode_announcement-encode_announcement,
  encode_announcement-decode_announcement,
}
use discovery.Engine.Sessions.{Action, session}
use discovery.Engine.Invariant.{IsSteady, session_made-IsSteady}
use discovery.Engine.Hearing.{own_announcement, Learns, announcement_heard, reply_heard}
use discovery.Engine.Polling.{Polls, poll_many-Polls}
use discovery.Engine.Answering.{Answers, handle_probe-Answers}
use discovery.Tests.Wire.{big_endian, big_endian-laws}
use discovery.Tests.Data.{clock, spans, infos, clock-laws, node_a, node_b, notice}

-- How often the clock was read, and what was sent.
abbrev pub World : Type 0
World = ℕ × List (Envelope ℤ)

abbrev pub Info : Type 0
Info = Bytes × Bytes × ℕ

-- Each reading of the clock is a millisecond later; nothing arrives.
abbrev pub quiet : Backend World ℤ
quiet = record {
  start = λ w. (true, w);
  stop = λ w. w;
  is_running = λ w. true;
  send = λ e w. (true, (w.0, e ∷ w.1));
  poll = λ w. (none, w);
  now = λ w. (pos (1000 + w.0), (w.0 + 1, w.1));
}

abbrev pub idle_transport : Transport World Info
idle_transport = record { is_running = λ w. true; contains = λ k w. false; connect_peer = λ p w. w }

abbrev pub config_of : Bytes → Config ℤ
config_of k = record {
  bind_host = codes "0.0.0.0";
  bind_port = 4000;
  broadcast_host = codes "255.255.255.255";
  broadcast_port = 4000;
  node_id = k;
  announce_host = codes "h";
  announce_port = 7000;
  announce_interval = pos 3000;
  peer_ttl = pos 15000;
  max_datagram_size = 65536;
  enable_broadcast = true;
}

abbrev context_of : Bytes → Context World Info ℤ
context_of k = record { config = some (config_of k); transport = some idle_transport }

abbrev pub engine_of : Bytes → Engine World ℤ Info ℤ
engine_of k = record {
  context = context_of k;
  registry = record { peers = [] };
  status = Status.running;
  last_announce_at = pos 0;
  world = (0, []);
}

abbrev carrying : Message → Envelope ℤ
carrying m = record {
  message = m;
  from_host = codes "h";
  from_port = 4000;
  to_host = [];
  to_port = 0;
  timestamp = pos 5;
  retry_count = 0;
  last_attempt_at = pos 0;
}

pub checked_a : Context.config_checked (context_of node_a) ≡ ok (config_of node_a)
unfolding Context.config_checked Config.is_valid Config.is_positive
checked_a = refl

pub fits_a : FitsAnnouncement big_endian-laws (own_announcement (config_of node_a) (pos 1000))
fits_a = record {
  node_id = omega arith;
  host = omega arith;
  port = omega arith;
  timestamp = omega arith;
}

strangers : Engine.local_node_id quiet (engine_of node_b) ≢ node_a
unfolding Engine.local_node_id Context.config_checked Config.is_valid Config.is_positive
strangers h = ground (arith, h)

abbrev payload_a : Bytes
payload_a =
    0 ∷ 0 ∷ 0 ∷ 1 ∷ 97 ∷ 0 ∷ 0 ∷ 0 ∷ 1 ∷ 104 ∷ 27 ∷ 88 ∷ 0 ∷ 0 ∷ 0 ∷ 0 ∷ 0 ∷ 0 ∷ 3 ∷ 232 ∷ []

abbrev pub said : Message
said = record {
  type = MessageType.announce;
  from_node_id = node_a;
  to_node_id = [];
  correlation_id = codes "announce-1001";
  payload = payload_a;
}

abbrev answered : Message
answered = record {
  type = MessageType.reply;
  from_node_id = node_a;
  to_node_id = node_b;
  correlation_id = codes "p";
  payload = payload_a;
}

pub said_value : said ≡ (Traffic.make_announce_message big_endian quiet (engine_of node_a)).0
unfolding Traffic.make_announce_message Engine.make_local_announcement Engine.local_node_id
    Engine.make_correlation_id Engine.read_clock Context.config_checked Config.is_valid
    Config.is_positive Message.announce Message.make Announcement.make encode_announcement
    append_string Announcement.is_valid Text.to_string Text.decimal
said_value = refl

answered_value :
    answered ≡ (Traffic.make_reply_message big_endian quiet node_b (codes "p") (engine_of node_a)).0
unfolding Traffic.make_reply_message Engine.make_local_announcement Engine.local_node_id
    Engine.read_clock Context.config_checked Config.is_valid Config.is_positive Message.reply
    Message.make Announcement.make encode_announcement append_string Announcement.is_valid
answered_value = refl

pub said_small : FitsMessage said
said_small = record {
  from_node_id = omega arith;
  to_node_id = omega arith;
  correlation_id = omega arith;
  payload = omega arith;
}

answered_small : FitsMessage answered
answered_small = record {
  from_node_id = omega arith;
  to_node_id = omega arith;
  correlation_id = omega arith;
  payload = omega arith;
}

announcement_heard_example :
    (decode_message big_endian (
        encode_message big_endian
          (Traffic.make_announce_message big_endian quiet (engine_of node_a)).0)
      ≡ some said)
    × Learns big_endian quiet
        (own_announcement (config_of node_a) (pos 1000))
        (engine_of node_b)
        (Traffic.dispatch big_endian quiet (carrying said) (engine_of node_b))
announcement_heard_example =
    announcement_heard big_endian-laws clock-laws quiet quiet (config_of node_a) (engine_of node_a)
      (engine_of node_b) (carrying said) checked_a refl fits_a
      (subst FitsMessage said_value said_small) strangers said_value

reply_heard_example :
    (decode_message big_endian (
        encode_message big_endian
          (Traffic.make_reply_message big_endian quiet node_b (codes "p") (engine_of node_a)).0)
      ≡ some answered)
    × Learns big_endian quiet
        (own_announcement (config_of node_a) (pos 1000))
        (engine_of node_b)
        (Traffic.dispatch big_endian quiet (carrying answered) (engine_of node_b))
reply_heard_example =
    reply_heard big_endian-laws clock-laws quiet quiet (config_of node_a) node_b (codes "p")
      (engine_of node_a) (engine_of node_b) (carrying answered) checked_a refl fits_a
      (subst FitsMessage answered_value answered_small) strangers answered_value

abbrev asking : Message
asking = record {
  type = MessageType.probe;
  from_node_id = node_b;
  to_node_id = [];
  correlation_id = codes "p";
  payload = [];
}

asked : Envelope.has_source (carrying asking) ≡ true
unfolding Envelope.has_source
asked = refl

handle_probe-Answers_example :
    (answer : Envelope ℤ) × Answers big_endian
      (config_of node_a)
      (pos 1000)
      (carrying asking)
      answer
    × (Traffic.handle_probe big_endian quiet (carrying asking) (engine_of node_a)
        ≡ (true, record (engine_of node_a) { world = (3, answer ∷ []) }))
handle_probe-Answers_example =
    handle_probe-Answers big_endian-laws clock-laws quiet (config_of node_a) (carrying asking)
      (engine_of node_a) checked_a asked refl refl fits_a

payload_bytes : All IsByte payload_a
payload_bytes = omega arith

payload_read :
    decode_announcement big_endian payload_a ≡ some (own_announcement (config_of node_a) (pos 1000))
unfolding decode_announcement decode_span read_string Announcement.is_valid
payload_read = refl

encode_announcement-decode_announcement_example :
    (encode_announcement big_endian (own_announcement (config_of node_a) (pos 1000)) ≡ payload_a)
    × FitsAnnouncement big_endian-laws (own_announcement (config_of node_a) (pos 1000))
encode_announcement-decode_announcement_example =
    encode_announcement-decode_announcement big_endian-laws clock-laws payload_a
      (own_announcement (config_of node_a) (pos 1000)) payload_bytes payload_read

session_made-IsSteady_example : IsSteady quiet (
    session big_endian quiet
      (Action.starts ∷ Action.announces ∷ Action.polls_many 3 ∷ Action.stops ∷ [])
      (Engine.make (context_of node_a) (0, [])))
session_made-IsSteady_example =
    session_made-IsSteady big_endian quiet
      (Action.starts ∷ Action.announces ∷ Action.polls_many 3 ∷ Action.stops ∷ [])
      (context_of node_a) (0, [])

poll_many-Polls_example :
    Polls big_endian quiet 5
      (engine_of node_a)
      (Traffic.poll_many big_endian quiet 5 (engine_of node_a)).0
      (Traffic.poll_many big_endian quiet 5 (engine_of node_a)).1
poll_many-Polls_example = poll_many-Polls big_endian quiet 5 (engine_of node_a)

notice_fits : FitsAnnouncement big_endian-laws notice
notice_fits = record {
  node_id = omega arith;
  host = omega arith;
  port = omega arith;
  timestamp = omega arith;
}

notice_valid : Announcement.is_valid notice ≡ true
unfolding Announcement.is_valid
notice_valid = refl

decode_announcement-encode_announcement_example :
    decode_announcement big_endian (encode_announcement big_endian notice) ≡ some notice
decode_announcement-encode_announcement_example =
    decode_announcement-encode_announcement big_endian-laws clock-laws notice notice_valid
      notice_fits
