-- ===== src/Storage.antt =====
-- internal/storage: the state file behind its cache, and the methods of Store.
pub mod Schema
pub mod Monad
pub mod Step
pub mod Io
pub mod Access
pub mod Projects
pub mod EnvVars
pub mod Snippets
pub mod Prune
pub mod Runs
pub mod Valid
pub mod Effects
pub mod Failures
pub mod Queries
mod Tests
