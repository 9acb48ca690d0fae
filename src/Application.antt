-- ===== src/Application.antt =====
-- The encapsulations that carry application commands (src/zwave-protocol/application).
pub mod Crc16Encap
pub mod TransportService
