-- ===== src/Gateway.antt =====
-- apps/gateway: tokens, rate limits, and the chain of handlers in front of the services.
pub mod Auth
pub mod RateLimit
pub mod Server
pub mod Proxy
pub mod Config
pub mod Main
