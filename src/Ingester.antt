-- ===== src/Ingester.antt =====
-- apps/ingester: the reference order book, the correctness validator and the run windows.
pub mod Book
pub mod Validator
pub mod Histogram
pub mod Window
pub mod Consumer
pub mod Database
pub mod Config
pub mod Clients
pub mod Main
pub mod Events
