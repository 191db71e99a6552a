-- ===== src/Engine/AnnouncementCodec.antt =====
-- include/softadastra/discovery/engine/DiscoveryEngine.hpp, the payload of an announcement or a
-- reply: node_id and host, each behind its u32 size, then the u16 port and the i64 milliseconds.
use discovery.Base.{
  ℕ, ◌+◌, ◌%◌, ◌==◌, [], ◌++◌, Option, none, some, not, length, is_empty, take, drop, if◌then◌else◌,
  ◌>>=◌,
}
use discovery.Base.Text.{Bytes}
use discovery.External.Serializer.{Serializer}
use discovery.External.Time.{Timestamps}
use discovery.Core.Announcement
use discovery.Core.Announcement.{Announcement}

module _ (s : Serializer) where
  unfoldable pub append_string : Bytes → Bytes → Bytes
  append_string buffer value = s.append_u32 buffer (length value % 4294967296) ++ value

  unfoldable pub read_string : Bytes → ℕ → Option (Bytes × ℕ)
  read_string buffer offset = do
    (size, start) ← s.read_u32 buffer offset
    if not (s.can_read buffer start size)
        then none
        else some (take size (drop start buffer), start + size)

module _ (s : Serializer) {T : Type 0} ⦃ts : Timestamps T⦄ where
  unfoldable pub encode_announcement : Announcement T → Bytes
  encode_announcement a =
      if not (Announcement.is_valid a)
      then []
      else let named = append_string s [] a.node_id in
        let hosted = append_string s named a.host in
        let ported = s.append_u16 hosted a.port in s.append_i64 ported (ts.millis a.timestamp)

  -- decode_announcement(std::span)
  unfoldable pub decode_span : Bytes → Option (Announcement T)
  decode_span buffer = do
    (node_id, hosted) ← read_string s buffer 0
    (host, ported) ← read_string s buffer hosted
    (port, timed) ← s.read_u16 buffer ported
    (timestamp_millis, offset) ← s.read_i64 buffer timed
    let announcement : Announcement T = record {
      node_id = node_id;
      host = host;
      port = port;
      timestamp = ts.from_millis timestamp_millis;
    }
    if not (offset == length buffer)
        then none
        else if not (Announcement.is_valid announcement)
        then none
        else some announcement

  -- decode_announcement(const std::vector<std::uint8_t> &)
  unfoldable pub decode_announcement : Bytes → Option (Announcement T)
  decode_announcement buffer = if is_empty buffer then none else decode_span buffer
