-- ===== src/Controller.antt =====
-- src/controller.rs: the embedded network controller.
pub mod Types
pub mod IpText
pub mod Pools
pub mod Plane
pub mod Assign
pub mod Members
pub mod Token
pub mod Ids
pub mod Load
