-- ===== src/AcpPool.antt =====
-- internal/acppool/pool.go: sessions routed through bounded ACP processes.
pub mod Group
pub mod Moves
pub mod Counts
pub mod Counting
pub mod Routing
pub mod Isolation
pub mod Sessions
pub mod Delivery
pub mod Pool
pub mod Runs
pub mod Members
pub mod Bounds
pub mod Pruning
pub mod Admission
