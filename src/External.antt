-- ===== src/External.antt =====
-- What the program calls and this repository does not hold: parameters of the model.
pub mod Time
pub mod Serializer
pub mod Transport
pub mod System
pub mod Carrying
