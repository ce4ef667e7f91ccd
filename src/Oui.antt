-- ===== src/Oui.antt =====
-- util/oui: the names of the vendors of hardware addresses.
pub mod Database
pub mod Blocks
pub mod Lookup
