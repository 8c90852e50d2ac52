-- ===== src/Packet/Verb.antt =====
-- src/packet.rs, `enum PacketType` and its conversions from and to a byte.
use zgalaxy_rs.Prelude.{ℕ, ◌≡◌, ◌≢◌, ◌<◌, arith, if◌then◌else◌, nat_beq}

pub data PacketType : Type 0 where
  nop hello error ok whois rendezvous frame ext_frame echo pong multicast_like : PacketType
  network_credentials network_config_request network_config multicast_gather : PacketType
  multicast_frame push_direct_paths user_message remote_trace : PacketType
  unknown : ℕ → PacketType

-- `impl From<u8> for PacketType`.
unfoldable pub of_u8 : ℕ → PacketType
of_u8 val =
    if nat_beq val 0x00
    then nop
    else if nat_beq val 0x01
    then hello
    else if nat_beq val 0x02
    then error
    else if nat_beq val 0x03
    then ok
    else if nat_beq val 0x04
    then whois
    else if nat_beq val 0x05
    then rendezvous
    else if nat_beq val 0x06
    then frame
    else if nat_beq val 0x07
    then ext_frame
    else if nat_beq val 0x08
    then echo
    else if nat_beq val 0x09
    then multicast_like
    else if nat_beq val 0x0a
    then network_credentials
    else if nat_beq val 0x0b
    then network_config_request
    else if nat_beq val 0x0c
    then network_config
    else if nat_beq val 0x0d
    then multicast_gather
    else if nat_beq val 0x0e
    then multicast_frame
    else if nat_beq val 0x0f
    then pong
    else if nat_beq val 0x10
    then push_direct_paths
    else if nat_beq val 0x12
    then user_message
    else if nat_beq val 0x13
    then remote_trace
    else unknown val

-- `impl From<PacketType> for u8`.
unfoldable pub to_u8 : PacketType → ℕ
to_u8 nop = 0x00
to_u8 hello = 0x01
to_u8 error = 0x02
to_u8 ok = 0x03
to_u8 whois = 0x04
to_u8 rendezvous = 0x05
to_u8 frame = 0x06
to_u8 ext_frame = 0x07
to_u8 echo = 0x08
to_u8 pong = 0x0f
to_u8 multicast_like = 0x09
to_u8 network_credentials = 0x0a
to_u8 network_config_request = 0x0b
to_u8 network_config = 0x0c
to_u8 multicast_gather = 0x0d
to_u8 multicast_frame = 0x0e
to_u8 push_direct_paths = 0x10
to_u8 user_message = 0x12
to_u8 remote_trace = 0x13
to_u8 (unknown v) = v

-- An `unknown` verb that holds a byte with no name of its own.
abbrev pub IsCanonical : PacketType → Type 0
IsCanonical (unknown v) = (v < 256) × (0x10 < v) × (v ≢ 0x12) × (v ≢ 0x13)
IsCanonical _ = Unit {0}

pub to_u8-of_u8 : (val : ℕ) → to_u8 (of_u8 val) ≡ val
unfolding of_u8 to_u8
to_u8-of_u8 val = ground arith

pub of_u8-to_u8 : (t : PacketType) → IsCanonical t → of_u8 (to_u8 t) ≡ t
unfolding of_u8 to_u8
of_u8-to_u8 (unknown v) h = ground arith
of_u8-to_u8 nop h = ground arith
of_u8-to_u8 _ h = ground arith

pub of_u8-IsCanonical : (val : ℕ) → val < 256 → IsCanonical (of_u8 val)
unfolding of_u8
of_u8-IsCanonical val h = ground arith

pub to_u8-lt : (t : PacketType) → IsCanonical t → to_u8 t < 256
unfolding to_u8
to_u8-lt (unknown v) h = ground arith
to_u8-lt nop h = ground arith
to_u8-lt _ h = ground arith
