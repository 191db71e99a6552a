-- ===== src/Types.antt =====
-- include/softadastra/discovery/types: the enumerations over `std::uint8_t`. The decoder casts any
-- byte to a message type, so `MessageType.unnamed` is a value outside the enumerators.
pub mod MessageType
pub mod PeerState
pub mod Status
