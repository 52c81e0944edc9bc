-- ===== src/Scorer.antt =====
-- apps/scorer: the score of a run, and the best score of each contestant.
pub mod Formula
pub mod Board
pub mod Config
mod Examples
pub mod Clients
pub mod Main
pub mod Events
