-- ===== src/Continuation.antt =====
-- src/continuation.rs: the handoff of a task to a fresh session.
pub mod Evidence
pub mod Rollover
mod Tests
