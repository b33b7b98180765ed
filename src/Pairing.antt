-- ===== src/Pairing.antt =====
-- src/pairing: how a client node and a coordinator find and remember each other.
pub mod Types
pub mod Messages
pub mod Client
pub mod Coordinator
pub mod Handshake
pub mod Discovery
pub mod Encounter
mod Tests
