-- ===== src/Kiro.antt =====
-- internal/kirofeature: the effort of a model.
pub mod Effort
pub mod Refusals
pub mod Asking
pub mod Probes
