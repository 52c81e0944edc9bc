-- ===== src/Sandbox.antt =====
-- apps/sandbox: a container for each submission, and the worker that starts its run.
pub mod Runner
pub mod DockerClient
pub mod Consumer
pub mod Puller
pub mod Loop
pub mod Config
pub mod Clients
pub mod Main
pub mod Events
