-- ===== src/S0.antt =====
-- Security 0 (src/zwave-protocol/security/s0).
pub mod Crypto
pub mod Security
pub mod NonceTable
pub mod Encapsulation
pub mod Toy
pub mod Tests
