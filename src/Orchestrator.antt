-- ===== src/Orchestrator.antt =====
-- The state machines of src/orchestrator, which react to messages on the bus and publish others.
pub mod Bus
pub mod S2Bootstrap
pub mod S2Peer
pub mod S2Inbound
pub mod S2Outbound
pub mod S2Delivery
pub mod S0Outbound
pub mod S0Bootstrap
pub mod Interview
pub mod Inclusion
