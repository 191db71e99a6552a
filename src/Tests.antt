-- ===== src/Tests.antt =====
-- Concrete runs, and the theorems at concrete inputs.
pub mod Wire
pub mod Data
pub mod System
pub mod Encoding
pub mod Registry
pub mod Engine
pub mod Service
pub mod Udp
pub mod OverUdp
pub mod Network
pub mod Leaks
pub mod Dialling
pub mod Truncation
