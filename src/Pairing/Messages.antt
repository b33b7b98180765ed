-- ===== src/Pairing/Messages.antt =====
-- src/pairing/pairing_beacon.h and src/connection/reconnect_messages.h: packed messages of eight
-- bytes. In each child module `parse` is the `reinterpret_cast` of a buffer of at least eight
-- bytes, `encode` the memory of a message, and `init` and `is_valid` the source's methods.
pub mod Beacon
pub mod Request
pub mod Confirm
pub mod Probe
pub mod Ack
