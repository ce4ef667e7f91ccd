-- ===== src/Multilisten.antt =====
-- multilisten/multilisten.go: a pool of listeners.
pub mod Pool
pub mod Hosts
pub mod Close
pub mod Serving
pub mod Trace
pub mod Lost
