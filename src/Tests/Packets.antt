-- ===== src/Tests/Packets.antt =====
-- The packet format and the addresses at concrete packets.
use zgalaxy_rs.Prelude.{◌≡◌, ◌+◌, ◌<◌, ◌≤◌, ◌⊎◌, [], ◌∷◌, length, arith}
use zgalaxy_rs.Prelude.Bytes.{Bytes, IsBytes}
use zgalaxy_rs.Prelude.Text.Laws.{IsLowerHex}
use zgalaxy_rs.Prelude.Outcome.{ok, err}
use zgalaxy_rs.Identity.Address.{Address, IsAddress}
use zgalaxy_rs.Identity.Address.Display.{from_str, to_string, from_str-to_string}
use zgalaxy_rs.Packet.Verb.{whois}
use zgalaxy_rs.Packet.Wire.{Packet, IsPacket, decode, encode}
use zgalaxy_rs.Packet.Buf.{truncated}
use zgalaxy_rs.Packet.RoundTrip.{decode-encode}
use zgalaxy_rs.Packet.Total.{decode_exact}
use zgalaxy_rs.Tests.Crates.{bytes_crate, hex_crate}

abbrev node : Address
node = record { b0 = 0xa1; b1 = 0xb2; b2 = 0xc3; b3 = 0xd4; b4 = 0xe5 }

abbrev root : Address
root = record { b0 = 0x9d; b1 = 0x21; b2 = 0x90; b3 = 0x39; b4 = 0xf3 }

node-IsAddress : IsAddress node
node-IsAddress = record {
  byte0 = omega arith;
  byte1 = omega arith;
  byte2 = omega arith;
  byte3 = omega arith;
  byte4 = omega arith;
}

root-IsAddress : IsAddress root
root-IsAddress = record {
  byte0 = omega arith;
  byte1 = omega arith;
  byte2 = omega arith;
  byte3 = omega arith;
  byte4 = omega arith;
}

abbrev query : Packet
query = record {
  packet_id = 0x0102030405060708;
  dest = root;
  source = node;
  flags = 3;
  mac = 0xffffffffffffffff;
  packet_type = whois;
  payload = 7 ∷ 200 ∷ [];
}

query-IsPacket : IsPacket query
query-IsPacket = record {
  id_u64 = omega arith;
  dest_address = root-IsAddress;
  source_address = node-IsAddress;
  flags_u8 = omega arith;
  mac_u64 = omega arith;
  canonical = tt;
  payload_bytes = omega arith;
}

decode-encode_example :
    (decode bytes_crate (encode bytes_crate query) ≡ ok query)
    × (length (encode bytes_crate query) ≡ 28 + length query.payload)
decode-encode_example = decode-encode bytes_crate query query-IsPacket

abbrev short : Bytes
short = 1 ∷ 2 ∷ 3 ∷ []

short-IsBytes : IsBytes short
short-IsBytes = omega arith

decode_exact_example :
    ((length short < 28) × (decode bytes_crate short ≡ err (truncated 28 (length short))))
    ⊎ ((28 ≤ length short)
        × ((p : Packet) × (decode bytes_crate short ≡ ok p)
            × IsPacket p
            × (encode bytes_crate p ≡ short)))
decode_exact_example = decode_exact bytes_crate short short-IsBytes

from_str-to_string_example :
    (from_str hex_crate (to_string node) ≡ ok node)
    × (length (to_string node) ≡ 10)
    × IsLowerHex (to_string node)
from_str-to_string_example = from_str-to_string hex_crate node node-IsAddress
