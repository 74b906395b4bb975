-- ===== src/Project.antt =====
-- internal/project: run targets, toolchains, modules and .env files of a project.
pub mod Targets
pub mod Toolchains
pub mod Module
pub mod Dotenv
pub mod Service
mod Tests
