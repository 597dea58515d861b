-- ===== src/Agent.antt =====
-- internal/agent/client.go: the HTTPS client of the API on the device.
pub mod Protocol
pub mod Version
pub mod Negotiation
pub mod Http
pub mod Client
pub mod Chunk
pub mod Write
pub mod Calls
