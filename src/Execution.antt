-- ===== src/Execution.antt =====
-- internal/execution: one run of a snippet.
pub mod Capture
pub mod Lifecycle
pub mod Outcome
pub mod SnippetCache
pub mod Environment
pub mod Start
mod Tests
