-- ===== src/App.antt =====
-- internal/app: the application service.
pub mod Registry
pub mod Paths
pub mod Tools
pub mod Files
pub mod Lifecycle
pub mod Step
pub mod Projects
pub mod Run
pub mod Reachable
mod Tests
