-- ===== src/Encoding/Encode.antt =====
-- include/softadastra/discovery/encoding/DiscoveryEncoder.hpp
use discovery.Base.{ℕ, ◌%◌, ◌==◌, [], ◌∷◌, ◌++◌, ◌||◌, not, is_empty, length, if◌then◌else◌}
use discovery.Base.Text.{Bytes}
use discovery.External.Serializer.{Serializer}
use discovery.Types.MessageType
use discovery.Core.Message
use discovery.Core.Message.{Message}
use discovery.Core.Datagram
use discovery.Core.Datagram.{Datagram}

module _ (s : Serializer) where
  -- The size is cast to a uint32.
  unfoldable pub append_string : Bytes → Bytes → Bytes
  append_string buffer value = s.append_u32 buffer (length value % 4294967296) ++ value

  unfoldable pub append_bytes : Bytes → Bytes → Bytes
  append_bytes buffer value = s.append_u32 buffer (length value % 4294967296) ++ value

  unfoldable pub encode_message : Message → Bytes
  encode_message m =
      if not (Message.is_valid m)
      then []
      else let typed = MessageType.to_u8 m.type ∷ [] in
        let sender = append_string typed m.from_node_id in
        let recipient = append_string sender m.to_node_id in
        let correlated = append_string recipient m.correlation_id in
        append_bytes correlated m.payload

  unfoldable pub make_datagram : Message → Bytes → ℕ → Datagram
  make_datagram m host port =
      let payload = encode_message m in
      if is_empty host || port == 0
      then Datagram.initial
      else if is_empty payload
      then Datagram.initial
      else record { host = host; port = port; payload = payload }
