-- ===== src/Download.antt =====
-- internal/download: the slots of the tools that are being installed, the download and the extraction
-- of the Go SDK, and the installation of tools.
pub mod Slots
pub mod Extract
pub mod Progress
pub mod Sdk
pub mod Install
mod Tests
