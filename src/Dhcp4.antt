-- ===== src/Dhcp4.antt =====
-- dhcp/dhcp4 and cmd/dhcp4: the DHCPv4 client.
pub mod Client
pub mod FirstAck
pub mod Acquire
pub mod Daemon
pub mod Health
pub mod Healthy
pub mod Logic
pub mod Ending
pub mod Rounds
pub mod Persist
