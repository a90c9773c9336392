-- ===== src/Endpoint.antt =====
-- The two programs over SockLib: build3/sample-3/Client and build3/sample-3/Server.
pub mod Client
pub mod Server
