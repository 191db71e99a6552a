-- ===== src/Core/Message.antt =====
-- include/softadastra/discovery/core/DiscoveryMessage.hpp
use discovery.Base.{ℕ, [], Bool, not, ◌&&◌, is_empty, length}
use discovery.Base.Text.{Bytes}
use discovery.Types.MessageType
use discovery.Types.MessageType.{MessageType}

pub record Message : Type 0 where
  pub type : MessageType
  pub from_node_id : Bytes
  pub to_node_id : Bytes
  pub correlation_id : Bytes
  pub payload : Bytes

-- DiscoveryMessage(type, from, payload)
unfoldable pub make : MessageType → Bytes → Bytes → Message
make type from payload = record {
  type = type;
  from_node_id = from;
  to_node_id = [];
  correlation_id = [];
  payload = payload;
}

unfoldable pub announce : Bytes → Bytes → Message
unfolding make
announce from payload = make MessageType.announce from payload

unfoldable pub probe : Bytes → Message
unfolding make
probe from = make MessageType.probe from []

unfoldable pub reply : Bytes → Bytes → Message
unfolding make
reply from payload = make MessageType.reply from payload

unfoldable pub has_recipient : Message → Bool
has_recipient m = not (is_empty m.to_node_id)

unfoldable pub has_correlation_id : Message → Bool
has_correlation_id m = not (is_empty m.correlation_id)

unfoldable pub has_payload : Message → Bool
has_payload m = not (is_empty m.payload)

unfoldable pub payload_size : Message → ℕ
payload_size m = length m.payload

unfoldable pub is_valid : Message → Bool
is_valid m = MessageType.is_valid m.type && not (is_empty m.from_node_id)

unfoldable pub clear : Message → Message
unfolding make
clear m = make MessageType.unknown [] []
