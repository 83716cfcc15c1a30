-- ===== src/Acp.antt =====
-- internal/acp: the diagnostics that the client keeps of its process.
pub mod Stderr
pub mod Retention
