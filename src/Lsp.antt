-- ===== src/Lsp.antt =====
-- internal/lsp: the proxy's framing of messages and the end of its process, and the manager of one
-- gopls session with its workspace.
pub mod Framing
pub mod Workspace
pub mod Manager
pub mod Stop
pub mod Session
mod Tests
