-- ===== src/Comm.antt =====
-- src/comm: addresses, the message header, the transport interface and its ESP-NOW implementation.
pub mod Types
pub mod Transport
pub mod EspNow
pub mod Header
