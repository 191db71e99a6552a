-- ===== src/Encoding.antt =====
-- include/softadastra/discovery/encoding: the wire format of a message,
--   u8 type, then from_node_id, to_node_id, correlation_id and payload, each behind its u32 size.
pub mod Encode
pub mod Decode
pub mod Fields
pub mod Wire
pub mod RoundTrip
pub mod Datagrams
