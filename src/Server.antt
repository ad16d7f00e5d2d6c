-- ===== src/Server.antt =====
-- The signaling server (server/src).
pub mod RateLimiter
pub mod Ids
pub mod Sessions
pub mod Handlers
pub mod Relay
pub mod Origin
pub mod Startup
