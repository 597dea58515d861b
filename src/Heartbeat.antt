-- ===== src/Heartbeat.antt =====
-- internal/heartbeat/server.go: the server that devices send their heartbeats and logs to.
pub mod Payload
pub mod Request
pub mod Nodes
pub mod Tokens
pub mod Status
pub mod Server
pub mod Logs
pub mod Authentic
pub mod Guarded
pub mod Attempts
pub mod Handled
pub mod Gate
pub mod Reports
pub mod Agreement
pub mod Duplicates
pub mod Relay
pub mod Refused
pub mod Posted
pub mod Matched
