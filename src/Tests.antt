-- ===== src/Tests.antt =====
-- Runs of the models, and the theorems at concrete inputs.
mod Dhcp4d
mod Dhcp4
mod Diag
mod Multilisten
mod Netconfig
mod Captured
mod Dhcp6
mod Interfaces
mod Oui
mod Networking
mod Config
mod Apply
mod LeaseServer
mod Health
mod Logic
mod Netconfigd
mod Listeners
