-- ===== src/Shell.antt =====
-- The shell of Assignment1P1.
pub mod Tokens
pub mod Scanner
pub mod Arguments
pub mod Printing
pub mod Jobs
pub mod Redirections
pub mod Starting
pub mod Redirects
pub mod Pipelines
pub mod Handover
pub mod Prompt
mod Tests
