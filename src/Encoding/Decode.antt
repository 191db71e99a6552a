-- ===== src/Encoding/Decode.antt =====
-- include/softadastra/discovery/encoding/DiscoveryDecoder.hpp. A reader returns the value with the
-- offset behind it, and `none` where the source returns false.
use discovery.Base.{ℕ, ◌+◌, ◌==◌, not, Option, none, some, is_empty, length, ltb}
use discovery.Base.{if◌then◌else◌, ◌>>=◌, get_elem?, take, drop}
use discovery.Base.Text.{Bytes}
use discovery.External.Serializer.{Serializer}
use discovery.Types.MessageType
use discovery.Core.Message
use discovery.Core.Message.{Message}
use discovery.Core.Datagram
use discovery.Core.Datagram.{Datagram}

abbrev pub minimum_message_size : ℕ
minimum_message_size = 1 + 4 + 4 + 4 + 4

module _ (s : Serializer) where
  unfoldable pub read_u8 : Bytes → ℕ → Option (ℕ × ℕ)
  read_u8 data' offset =
      if not (s.can_read data' offset 1)
      then none
      else get_elem? data' offset >>= λ value. some (value, offset + 1)

  unfoldable pub read_string : Bytes → ℕ → Option (Bytes × ℕ)
  read_string data' offset = do
    (size, start) ← s.read_u32 data' offset
    if not (s.can_read data' start size)
        then none
        else some (take size (drop start data'), start + size)

  unfoldable pub read_bytes : Bytes → ℕ → Option (Bytes × ℕ)
  read_bytes data' offset = do
    (size, start) ← s.read_u32 data' offset
    if not (s.can_read data' start size)
        then none
        else some (take size (drop start data'), start + size)

  -- decode_message(std::span)
  unfoldable pub decode_message : Bytes → Option Message
  decode_message data' = if ltb (length data') minimum_message_size then none else do
    (raw_type, sender) ← read_u8 data' 0
    (from_node_id, recipient) ← read_string data' sender
    (to_node_id, correlation) ← read_string data' recipient
    (correlation_id, body) ← read_string data' correlation
    (payload, offset) ← read_bytes data' body
    let message : Message = record {
      type = MessageType.from_u8 raw_type;
      from_node_id = from_node_id;
      to_node_id = to_node_id;
      correlation_id = correlation_id;
      payload = payload;
    }
    if not (offset == length data')
        then none
        else if not (Message.is_valid message)
        then none
        else some message

  -- decode_message(const std::uint8_t *, std::size_t): `none` is the null pointer.
  unfoldable pub decode_pointer : Option Bytes → Option Message
  decode_pointer none = none
  decode_pointer (some data') = decode_message data'

  -- decode_message(const std::vector<std::uint8_t> &)
  unfoldable pub decode_buffer : Bytes → Option Message
  decode_buffer buffer = if is_empty buffer then none else decode_message buffer

  unfoldable pub decode_datagram : Datagram → Option Message
  unfolding decode_buffer
  decode_datagram d = if not (Datagram.is_valid d) then none else decode_buffer d.payload
