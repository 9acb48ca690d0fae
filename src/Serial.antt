-- ===== src/Serial.antt =====
-- The Host API serial link: data frames, the byte parser, and the transport with its retries.
pub mod DataFrame
pub mod Parser
pub mod Transport
