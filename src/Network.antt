-- ===== src/Network.antt =====
-- src/network.rs: the networks that this node has joined, `NetworkManager`.
pub mod Types
pub mod Disk
pub mod Manager
pub mod Requests
pub mod Intent
pub mod Synced
pub mod Restart
