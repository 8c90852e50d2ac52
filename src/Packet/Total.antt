-- ===== src/Packet/Total.antt =====
-- What `decode` does on every byte string.
use zgalaxy_rs.Prelude.{
  ℕ, ◌≡◌, refl, ap, sym, ◌∙◌, ◌<◌, ◌≤◌, ◌⊎◌, inl, inr, List, [], ◌∷◌, ◌++◌, length, take, drop,
  arith, length-drop, take-append-drop, All,
}
use native.Mathlib.Decide.{dec_lt}
use zgalaxy_rs.Prelude.Bytes.{
  Bytes, IsByte, IsBytes, of_be_bytes, of_be_bytes-lt, be_bytes-of_be_bytes,
}
use zgalaxy_rs.Prelude.Outcome.{ok, err}
use zgalaxy_rs.Identity.Address.Numbers.{as_bytes-of_slice}
use zgalaxy_rs.Packet.Verb.{of_u8, to_u8-of_u8, of_u8-IsCanonical}
use zgalaxy_rs.Packet.Buf.{BytesCrate, truncated, length-take_le}
use zgalaxy_rs.Packet.Wire.{Packet, IsPacket, encode, decode}
use zgalaxy_rs.Packet.RoundTrip.{frame_of, IsFrame, decode-frame, encode-layout}

-- A byte string cut into the pieces of a frame.
record Cut (input : Bytes) : Type 0 where
  id : Bytes
  dest : Bytes
  source : Bytes
  flags : ℕ
  mac : Bytes
  verb : ℕ
  payload : Bytes
  lengths : (length id ≡ 8) × (length dest ≡ 5) × (length source ≡ 5) × (length mac ≡ 8)
  whole : frame_of id dest source flags mac verb payload ≡ input

uncons : (bs : Bytes) → 0 < length bs → (b : ℕ) × (rest : Bytes) × (b ∷ rest ≡ bs)
uncons [] h = elim h [ ]
uncons (b ∷ rest) h = (b, rest, refl)

All-split : {A : Type 0} (P : A → Type 0) (xs ys : List A) → All P (xs ++ ys) → All P xs × All P ys
All-split P [] ys h = (tt, h)
All-split P (x ∷ xs) ys h = let rest = All-split P xs ys h.1 in ((h.0, rest.0), rest.1)

cut : (input : Bytes) → 28 ≤ length input → Cut input
cut input h =
    let r1 = drop 8 input in
    let r2 = drop 5 r1 in
    let r3 = drop 5 r2 in
    let l1 : 20 ≤ length r1 = omega (arith, length-drop 8 input) in
    let l2 : 15 ≤ length r2 = omega (arith, length-drop 5 r1) in
    let l3 : 10 ≤ length r3 = omega (arith, length-drop 5 r2) in
    let u1 = uncons r3 (omega arith) in
    let r4 = u1.1 in
    let l4 : 9 ≤ length r4 = omega (arith, ap length u1.2) in
    let r5 = drop 8 r4 in
    let l5 : 1 ≤ length r5 = omega (arith, length-drop 8 r4) in
    let u2 = uncons r5 (omega arith) in
    record {
      id = take 8 input;
      dest = take 5 r1;
      source = take 5 r2;
      flags = u1.0;
      mac = take 8 r4;
      verb = u2.0;
      payload = u2.1;
      lengths = (
        length-take_le 8 input (omega arith),
        length-take_le 5 r1 (omega arith),
        length-take_le 5 r2 (omega arith),
        length-take_le 8 r4 (omega arith),
      );
      whole =
          rw (u2.2, take-append-drop 8 r4, u1.2, take-append-drop 5 r2, take-append-drop 5 r1)
            (take-append-drop 8 input);
    }

module _ (buf : BytesCrate) where
  decode-Cut :
      (input : Bytes)
      → IsBytes input
      → Cut input
      → (p : Packet) × (decode buf input ≡ ok p) × IsPacket p × (encode buf p ≡ input)
  decode-Cut input bytes c =
      let s1 =
        All-split IsByte c.id (c.dest ++ (c.source ++ (c.flags ∷ (c.mac ++ (c.verb ∷ c.payload)))))
          (rw c.whole bytes) in
      let s2 =
        All-split IsByte c.dest (c.source ++ (c.flags ∷ (c.mac ++ (c.verb ∷ c.payload)))) s1.1 in
      let s3 = All-split IsByte c.source (c.flags ∷ (c.mac ++ (c.verb ∷ c.payload))) s2.1 in
      let s4 = All-split IsByte c.mac (c.verb ∷ c.payload) s3.1.1 in
      let d = as_bytes-of_slice c.dest c.lengths.1 s2.0 in
      let s = as_bytes-of_slice c.source c.lengths.2 s3.0 in
      let f : IsFrame c.id c.dest c.source c.mac d.0 s.0 = record {
        id_length = c.lengths.0;
        dest_length = c.lengths.1;
        source_length = c.lengths.2;
        mac_length = c.lengths.3;
        dest_address = d.1;
        source_address = s.1;
      } in
      let p : Packet = record {
        packet_id = of_be_bytes c.id;
        dest = d.0;
        source = s.0;
        flags = c.flags;
        mac = of_be_bytes c.mac;
        packet_type = of_u8 c.verb;
        payload = c.payload;
      } in
      (
        p,
        ap (decode buf) (sym c.whole)
            ∙ decode-frame c.id c.dest c.source c.flags c.mac c.verb c.payload f buf,
        record {
          id_u64 = of_be_bytes-lt 8 c.id s1.0 c.lengths.0;
          dest_address = d.3;
          source_address = s.3;
          flags_u8 = s3.1.0;
          mac_u64 = of_be_bytes-lt 8 c.mac s4.0 c.lengths.3;
          canonical = of_u8-IsCanonical c.verb s4.1.0;
          payload_bytes = s4.1.1;
        },
        rw
            (
              encode-layout buf p,
              be_bytes-of_be_bytes 8 c.id s1.0 c.lengths.0,
              d.2,
              s.2,
              be_bytes-of_be_bytes 8 c.mac s4.0 c.lengths.3,
              to_u8-of_u8 c.verb,
            )
            c.whole,
      )

  -- `decode` never panics: a byte string below 28 bytes gives the error that names its length, and
  -- any other gives a packet whose fields fit their types and whose encoding is that byte string.
  pub decode_exact :
      (input : Bytes)
      → IsBytes input
      → ((length input < 28) × (decode buf input ≡ err (truncated 28 (length input))))
        ⊎ ((28 ≤ length input)
            × ((p : Packet) × (decode buf input ≡ ok p) × IsPacket p × (encode buf p ≡ input)))
  unfolding decode
  decode_exact input bytes = elim (dec_lt (length input) 28) [
    | yes short ↦ inl (short, ground arith)
    | no long ↦
        let h : 28 ≤ length input = omega arith in inr (h, decode-Cut input bytes (cut input h))
  ]
