-- ===== src/Tests/Data.antt =====
-- Concrete clocks, durations and peer infos, and test data.
use discovery.Base.{ℕ, refl, ◌*◌, ◌==◌, ◌&&◌, not, is_empty, []}
use discovery.Base.Int.{ℤ, pos, leb_ℤ}
use discovery.Base.Text.{Bytes, codes}
use discovery.External.Time.{Timestamps, Durations, TimestampLaws}
use discovery.External.Transport.{PeerInfos}
use discovery.Types.MessageType
use discovery.Types.PeerState
use discovery.Core.Message.{Message}
use discovery.Core.Announcement.{Announcement}
use discovery.Peer.DiscoveredPeer.{DiscoveredPeer}

-- A time is its milliseconds, and valid after 0.
instance abbrev pub clock : Timestamps ℤ
clock = record {
  millis = λ t. t;
  from_millis = λ z. z;
  is_valid = λ t. leb_ℤ (pos 1) t;
  unset = pos 0;
}

instance abbrev pub spans : Durations ℤ
spans = record {
  millis = λ d. d;
  from_millis = λ z. z;
  from_seconds = λ n. pos (n * 1000);
  cast_rep = λ n. pos n;
}

pub clock-laws : TimestampLaws clock
clock-laws = record {
  from_millis-millis = λ t. refl;
  millis-from_millis = λ z h. refl;
  unset_invalid = refl;
}

instance abbrev pub infos : PeerInfos (Bytes × Bytes × ℕ)
infos = record {
  make = λ k h p. (k, h, p);
  is_valid = λ i. not (is_empty i.0) && not (is_empty i.1) && not (i.2 == 0);
  node_id = λ i. i.0;
  host = λ i. i.1;
  port = λ i. i.2;
}

abbrev pub node_a : Bytes
node_a = codes "a"

abbrev pub node_b : Bytes
node_b = codes "b"

abbrev pub hello : Message
hello = record {
  type = MessageType.probe;
  from_node_id = node_a;
  to_node_id = [];
  correlation_id = codes "p";
  payload = [];
}

abbrev pub notice : Announcement ℤ
notice = record { node_id = node_b; host = codes "h"; port = 7000; timestamp = pos 10 }

-- Seen at 1000, and expired.
abbrev pub gone_peer : DiscoveredPeer ℤ
gone_peer = record {
  announcement = notice;
  state = PeerState.expired;
  last_seen_at = pos 1000;
  error_count = 0;
}
