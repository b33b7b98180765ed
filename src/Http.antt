-- ===== src/Http.antt =====
-- src/http: the HTTP and WebSocket server and the HTTP client.
pub mod Httpd
pub mod Client
pub mod Server
pub mod Request
pub mod Response
mod Tests
