-- ===== src/Bots.antt =====
-- apps/bots: the orders that the bots send, and what they make of the answers.
pub mod Orders
pub mod Bot
pub mod Orchestrator
pub mod Fleet
pub mod Consumer
pub mod Config
mod Examples
pub mod Clients
pub mod Main
pub mod Events
