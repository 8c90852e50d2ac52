-- ===== src/Lib.antt =====
-- zgalaxy-rs: a node of a virtual network in the style of ZeroTier, with its own controller. This library
-- models the core of the node and of the controller, and proves what makes the parts correct.
--
-- Parts, and the files that model them (paths from the repository's root):
--   src/identity.rs                   Identity/Address and its children; Identity/Keys, with theorems in
--                                     Identity/Keys/Parse, Print and Total
--   src/packet.rs                     Packet/Verb, Packet/Wire; RoundTrip and Total hold the theorems
--   src/l2_switch.rs                  L2Switch; Table, Frame and Refine hold the theorems
--   src/peer.rs                       Peer; Score, Update, Record and Table hold the theorems
--   src/network.rs                    Network/Types, Disk, Manager; Requests puts the methods together,
--                                     Synced, Restart and Intent hold the theorems
--   src/controller.rs                 Controller/Types (records), Pools (IPv4 pools), Plane (derived
--                                     and opaque IPv6 addresses), Assign (modes), Members (tables, joining),
--                                     Token (membership tokens), Ids (new network ids), Load (files)
--   src/quic.rs                       Quic (tables, activation, announcements and proofs), Quic/Control
--                                     (messages), Quic/Connect (dialing, sending); Quic/Proof, Active and
--                                     Runs hold the theorems
--   src/main.rs                       Daemon and Daemon/Serve (the engine loop over QUIC events),
--                                     Daemon/Config (a controller's response); Handshake, Presence, Lost,
--                                     Served, Interface and Synced hold the theorems
--   src/world.rs                      World (types and writing), World/Parse, World/Canonical (the signed
--                                     canonical format); RoundTrip, Bounds and the children of
--                                     Canonical hold the theorems
-- Prelude has the numbers, texts, byte strings, maps and results that the parts share, Net the socket
-- addresses, Json the interface of serde_json, and Tests runs every theorem at concrete inputs.
--
-- How they interact: the engine loop takes the events of the QUIC transport. A frame teaches the switch the
-- socket address that it came from; an announcement is challenged, and its proof, which an identity signs,
-- binds the remote to an address of Identity; the peer table and the controller's members are refreshed for
-- remotes that are bound. The controller answers a join request with a member record whose addresses Assign
-- takes from Pools and Plane, and with a token; the node stores the answer in its network table and
-- brings its interface in line with it.
--
-- State is passed explicitly. In the switch, the peer table, the network manager and the controller, a method
-- that takes a lock is one step on the table behind it, as if no other task ran in between, also where the
-- source drops the lock before it writes a file. The QUIC transport is taken apart further: each critical
-- section of its tables is a function of its own, Quic/Runs lets them come in any order, and `connect`
-- takes what other tasks do while it waits as an argument. A QUIC connection stands for itself by its stable id.
-- A `HashMap` is an association list without repeated keys; its order stands for one of the orders of
-- iteration. The clock and random numbers are arguments. The result of a file operation is an argument where it
-- is not ignored.
--
-- Integers are natural numbers with their bounds as hypotheses or as `% 2 ^ w`; signed ones are the ℤ of
-- Prelude/Int. The only fuel is the count of a range loop of the source: the length of an IPv4 pool, the
-- 256 probes of an IPv6 pool, and the counts in a world file, which are the bounds of those loops.
-- A slice that ends behind its data, and an index behind them, panics (Prelude/Slice), and so does a copy
-- into an array of another length.
--
-- Parameters, with what the code relies on as fields: the `bytes` crate (Packet/Buf), `hex` (Address/Display),
-- the text of IP addresses of the standard library (Controller/IpText), UTF-8 (World), HMAC-SHA256, SHA-256,
-- serde_json, Ed25519 with SHA-512 (Identity/Keys, Daemon/Handshake), and base64 (Controller/Token). The loop of
-- `Identity::generate` runs over a list of the keys that the random generator gives, and ends with it.
-- quinn, the TUN device and the system's routes are what comes in as events and what goes out as effects and
-- actions.
--
-- Not modelled: the resolver, the sync provider, the
-- partial updates of the controller's records, the start and the watchdogs of the daemon, and
-- what is input and output only (TUN, sockets, routes, command line, HTTP). Logging is left out.
pub mod Prelude
pub mod Identity
pub mod Packet
pub mod Net
pub mod L2Switch
pub mod Json
pub mod Peer
pub mod Quic
pub mod World
pub mod Daemon
pub mod Controller
pub mod Network
pub mod Tests
