-- ===== src/Server.antt =====
-- p5/server.c: the queue of waiting requests, and the master and the workers on it.
pub mod Queue
pub mod Workers
pub mod Intake
pub mod Start
mod Examples
