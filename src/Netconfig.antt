-- ===== src/Netconfig.antt =====
-- netconfig: the network configuration of the router.
pub mod Port
pub mod Decimal
pub mod Forward
pub mod Nft
pub mod Rule
pub mod Forwarding
pub mod Firewall
pub mod Ruleset
pub mod Links
pub mod Bridges
pub mod Interfaces
pub mod Moves
pub mod Stages
pub mod Configured
pub mod Lease
pub mod Reroutes
pub mod Addrs
pub mod Replaced
pub mod Leased
pub mod Subnet
pub mod Delegated
pub mod WireGuard
pub mod Tunnels
pub mod Apply
pub mod Quiet
pub mod Sysctls
pub mod Filtering
pub mod Applied
pub mod Daemon
pub mod Waiting
pub mod Counters
