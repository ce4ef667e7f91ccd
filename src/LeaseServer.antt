-- ===== src/LeaseServer.antt =====
-- cmd/dhcp4d: the daemon around the DHCPv4 server.
pub mod Store
pub mod Web
pub mod Stored
pub mod Rows
pub mod Listed
