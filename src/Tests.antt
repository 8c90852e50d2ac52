-- ===== src/Tests.antt =====
-- Runs of the theorems at concrete inputs.
mod Crates
mod Packets
mod Switching
mod Peering
mod Assigning
mod Joining
mod Networks
mod Keys
mod Nodes
mod Sessions
mod Engine
mod Interfaces
mod Worlds
mod Loading
