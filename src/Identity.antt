-- ===== src/Identity.antt =====
-- src/identity.rs: the 40-bit node address.
pub mod Address
pub mod Keys
