-- ===== src/Dhcp6.antt =====
-- dhcp/dhcp6/dhcp6.go: the DHCPv6 client.
pub mod Client
pub mod Exchange
pub mod Renew
pub mod Setup
pub mod Daemon
pub mod Stores
