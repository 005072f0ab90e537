-- ===== src/Shell.antt =====
-- p2: the shell. Its process calls the operating system, which is a parameter: `Shell.Process`.
pub mod Process
pub mod Parser
pub mod Basic
pub mod Single
pub mod Line
pub mod Draft
mod Examples
