-- ===== src/Stun.antt =====
-- stun/: the STUN protocol.
pub mod Constants
pub mod Types
pub mod Utils
pub mod Message
pub mod Hmac
pub mod Crc
pub mod Agent
pub mod Timer
pub mod Ice
pub mod Bind
pub mod Turn
