-- ===== src/Submission.antt =====
-- apps/submission: upload validation, the upload handler, the status tracker and its consumers.
pub mod Tracker
pub mod Listener
pub mod FileCheck
pub mod Upload
pub mod Store
pub mod Config
pub mod Clients
pub mod Main
pub mod Events
