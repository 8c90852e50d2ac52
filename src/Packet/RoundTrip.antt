-- ===== src/Packet/RoundTrip.antt =====
-- `decode` after `encode`, and `encode` after `decode`.
use zgalaxy_rs.Prelude.{ℕ, ◌≡◌, some, refl, ap, ◌∙◌, ◌+◌, ◌∷◌, ◌++◌, length, arith, length-append}
use mathlib.Core.List.{append_assoc}
use zgalaxy_rs.Prelude.Bytes.{Bytes, be_bytes, of_be_bytes, of_be_bytes-be_bytes, length-be_bytes}
use zgalaxy_rs.Prelude.Outcome.{ok}
use zgalaxy_rs.Identity.Address.{Address, as_bytes, of_slice}
use zgalaxy_rs.Identity.Address.Numbers.{of_slice-as_bytes}
use zgalaxy_rs.Packet.Verb.{of_u8, to_u8, of_u8-to_u8}
use zgalaxy_rs.Packet.Buf.{BytesCrate}
use zgalaxy_rs.Packet.Wire.{Packet, IsPacket, address_of, encode, decode}

-- The frame of a packet, from its six fixed pieces.
abbrev pub frame_of :
    (id dest source : Bytes) (flags : ℕ) (mac : Bytes) (verb : ℕ) (payload : Bytes) → Bytes
frame_of id dest source flags mac verb payload =
    id ++ (dest ++ (source ++ (flags ∷ (mac ++ (verb ∷ payload)))))

-- The pieces have the lengths of the format, and the two addresses are those of `dest` and `source`.
pub record IsFrame (id dest source mac : Bytes) (d s : Address) : Type 0 where
  pub id_length : length id ≡ 8
  pub dest_length : length dest ≡ 5
  pub source_length : length source ≡ 5
  pub mac_length : length mac ≡ 8
  pub dest_address : of_slice dest ≡ some d
  pub source_address : of_slice source ≡ some s

module _ (id dest source : Bytes) (flags : ℕ) (mac : Bytes) (verb : ℕ) (payload : Bytes)
    {d s : Address} (f : IsFrame id dest source mac d s) where
  length-frame : length (frame_of id dest source flags mac verb payload) ≡ 28 + length payload
  length-frame = omega (
    arith,
    length-append id (dest ++ (source ++ (flags ∷ (mac ++ (verb ∷ payload))))),
    length-append dest (source ++ (flags ∷ (mac ++ (verb ∷ payload)))),
    length-append source (flags ∷ (mac ++ (verb ∷ payload))),
    length-append mac (verb ∷ payload),
    f.id_length,
    f.dest_length,
    f.source_length,
    f.mac_length,
  )

  pub decode-frame :
      (buf : BytesCrate)
      → decode buf (frame_of id dest source flags mac verb payload)
        ≡ ok (record {
          packet_id = of_be_bytes id;
          dest = d;
          source = s;
          flags = flags;
          mac = of_be_bytes mac;
          packet_type = of_u8 verb;
          payload = payload;
        })
  unfolding decode address_of
  decode-frame buf = ground (
    arith,
    length-frame,
    f.dest_address,
    f.source_address,
    buf.get_u64_lem id (dest ++ (source ++ (flags ∷ (mac ++ (verb ∷ payload))))) f.id_length,
    buf.copy_to_slice_lem 5 dest (source ++ (flags ∷ (mac ++ (verb ∷ payload)))) f.dest_length,
    buf.copy_to_slice_lem 5 source (flags ∷ (mac ++ (verb ∷ payload))) f.source_length,
    buf.get_u8_lem flags (mac ++ (verb ∷ payload)),
    buf.get_u64_lem mac (verb ∷ payload) f.mac_length,
    buf.get_u8_lem verb payload,
  )

length-as_bytes : (a : Address) → length (as_bytes a) ≡ 5
unfolding as_bytes
length-as_bytes a = refl

-- The bytes of a packet are the frame of its fields.
layout-IsFrame :
    (p : Packet)
    → IsFrame
        (be_bytes 8 p.packet_id)
        (as_bytes p.dest)
        (as_bytes p.source)
        (be_bytes 8 p.mac)
        p.dest
        p.source
layout-IsFrame p = record {
  id_length = length-be_bytes 8 p.packet_id;
  dest_length = length-as_bytes p.dest;
  source_length = length-as_bytes p.source;
  mac_length = length-be_bytes 8 p.mac;
  dest_address = of_slice-as_bytes p.dest;
  source_address = of_slice-as_bytes p.source;
}

abbrev pub layout : Packet → Bytes
layout p =
    frame_of (be_bytes 8 p.packet_id) (as_bytes p.dest) (as_bytes p.source) p.flags
      (be_bytes 8 p.mac) (to_u8 p.packet_type) p.payload

module _ (buf : BytesCrate) where
  open buf use {put_u64_lem, put_u8_lem, put_slice_lem}

  pub encode-layout : (p : Packet) → encode buf p ≡ layout p
  unfolding encode as_bytes
  encode-layout p = simp (put_u64_lem, put_u8_lem, put_slice_lem, append_assoc)

  -- A packet whose fields fit their types, and whose type is not `unknown` with a byte that names a
  -- known type (such a packet is read back with the known type), is encoded in 28 bytes and its
  -- payload, and `decode` gives it back whole.
  pub decode-encode :
      (p : Packet)
      → IsPacket p
      → (decode buf (encode buf p) ≡ ok p) × (length (encode buf p) ≡ 28 + length p.payload)
  decode-encode p h = (
    rw (
      encode-layout p,
      decode-frame (be_bytes 8 p.packet_id) (as_bytes p.dest) (as_bytes p.source) p.flags
          (be_bytes 8 p.mac) (to_u8 p.packet_type) p.payload (layout-IsFrame p) buf,
      of_be_bytes-be_bytes 8 p.packet_id h.id_u64,
      of_be_bytes-be_bytes 8 p.mac h.mac_u64,
      of_u8-to_u8 p.packet_type h.canonical,
    ),
    ap length (encode-layout p)
        ∙ length-frame (be_bytes 8 p.packet_id) (as_bytes p.dest) (as_bytes p.source) p.flags
            (be_bytes 8 p.mac) (to_u8 p.packet_type) p.payload (layout-IsFrame p),
  )
