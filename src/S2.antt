-- ===== src/S2.antt =====
-- Security 2 (src/zwave-protocol/security/s2): nonces, encapsulation and their wire formats.
pub mod Crypto
pub mod Span
pub mod NonceSync
pub mod Encapsulation
pub mod Mpan
pub mod Manager
pub mod Multicast
pub mod Kex
pub mod KeyInstall
pub mod PublicKey
pub mod KeyDerivation
pub mod Transport
pub mod Toy
