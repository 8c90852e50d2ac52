-- ===== src/Packet/Wire.antt =====
-- src/packet.rs, `struct Packet` with `new`, `encode` and `decode`.
use zgalaxy_rs.Prelude.{ℕ, ◌^◌, ◌<◌, [], none, some, length, ltb, not}
use zgalaxy_rs.Prelude.Bytes.{Bytes, IsByte, IsBytes}
use zgalaxy_rs.Prelude.Outcome.{Outcome, ok, panic, ◌>>=◌, ◌>>◌, ensure}
use zgalaxy_rs.Identity.Address.{Address, IsAddress, as_bytes, of_slice}
use zgalaxy_rs.Packet.Verb.{PacketType, of_u8, to_u8, IsCanonical}
use zgalaxy_rs.Packet.Buf.{BytesCrate, PacketError, truncated}

abbrev pub proto_max_hops : ℕ
proto_max_hops = 7

abbrev pub header_size : ℕ
header_size = 28

pub record Packet : Type 0 where
  pub packet_id : ℕ
  pub dest : Address
  pub source : Address
  pub flags : ℕ
  pub mac : ℕ
  pub packet_type : PacketType
  pub payload : Bytes

-- Every field is within its Rust type, and an `unknown` verb is one that `decode` can produce.
pub record IsPacket (p : Packet) : Type 0 where
  pub id_u64 : p.packet_id < 2 ^ 64
  pub dest_address : IsAddress p.dest
  pub source_address : IsAddress p.source
  pub flags_u8 : IsByte p.flags
  pub mac_u64 : p.mac < 2 ^ 64
  pub canonical : IsCanonical p.packet_type
  pub payload_bytes : IsBytes p.payload

unfoldable pub new : Address → Address → ℕ → PacketType → Bytes → Packet
new dest source packet_id packet_type payload = record {
  packet_id = packet_id;
  dest = dest;
  source = source;
  flags = 0;
  mac = 0;
  packet_type = packet_type;
  payload = payload;
}

-- `Address(arr)` for an array of five bytes that `copy_to_slice` filled.
unfoldable pub address_of : Bytes → Outcome PacketError Address
unfolding of_slice
address_of bs = elim (of_slice bs) [ none ↦ panic | some a ↦ ok a ]

module _ (buf : BytesCrate) where
  open buf use {put_u64, put_u8, put_slice, get_u64, get_u8, copy_to_slice}

  unfoldable pub encode : Packet → Bytes
  encode p =
      let b = put_u64 [] p.packet_id in
      let b1 = put_slice b (as_bytes p.dest) in
      let b2 = put_slice b1 (as_bytes p.source) in
      let b3 = put_u8 b2 p.flags in
      let b4 = put_u64 b3 p.mac in
      let b5 = put_u8 b4 (to_u8 p.packet_type) in put_slice b5 p.payload

  unfoldable pub decode : Bytes → Outcome PacketError Packet
  unfolding address_of
  decode input = do
    ensure (not (ltb (length input) header_size)) (truncated header_size (length input))
    (packet_id, r1) ← get_u64 input
    (dest_bytes, r2) ← copy_to_slice 5 r1
    dest ← address_of dest_bytes
    (src_bytes, r3) ← copy_to_slice 5 r2
    source ← address_of src_bytes
    (flags, r4) ← get_u8 r3
    (mac, r5) ← get_u64 r4
    (verb, payload) ← get_u8 r5
    ok (record {
      packet_id = packet_id;
      dest = dest;
      source = source;
      flags = flags;
      mac = mac;
      packet_type = of_u8 verb;
      payload = payload;
    })
