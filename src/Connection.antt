-- ===== src/Connection.antt =====
-- src/connection: the connection lifecycle of a client node.
pub mod Config
pub mod Session
pub mod Manager
pub mod EspNow
