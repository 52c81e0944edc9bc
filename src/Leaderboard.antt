-- ===== src/Leaderboard.antt =====
-- apps/leaderboard: the hub that broadcasts to the WebSocket clients, and the board in Redis.
pub mod Hub
pub mod Board
pub mod Config
pub mod Feed
pub mod Clients
pub mod Main
pub mod Events
