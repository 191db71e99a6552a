-- ===== src/Core.antt =====
-- include/softadastra/discovery/core and utils: the records that travel between the parts.
pub mod Message
pub mod Announcement
pub mod Envelope
pub mod Datagram
pub mod Config
pub mod Context
