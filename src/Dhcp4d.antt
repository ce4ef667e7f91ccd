-- ===== src/Dhcp4d.antt =====
-- dhcp/dhcp4d: the DHCPv4 server.
pub mod Quirks
pub mod Handler
pub mod Serve
pub mod Invariant
pub mod Availability
pub mod Preserve
pub mod Replace
pub mod Serving
pub mod Exchange
pub mod Offer
pub mod Renewal
pub mod Restore
