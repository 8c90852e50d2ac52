-- ===== src/Packet.antt =====
-- src/packet.rs: the 28-byte header of the wire protocol, its verbs, `encode` and `decode`. The
-- buffer of the `bytes` crate is a parameter.
pub mod Verb
pub mod Buf
pub mod Wire
pub mod RoundTrip
pub mod Total
