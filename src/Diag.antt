-- ===== src/Diag.antt =====
-- diag/diag.go and cmd/diagd: the network diagnostics.
pub mod Monitor
pub mod Cause
pub mod Dependency
pub mod Page
pub mod Surroundings
pub mod Checks
pub mod Clean
pub mod Health
