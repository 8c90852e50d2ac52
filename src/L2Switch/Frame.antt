-- ===== src/L2Switch/Frame.antt =====
-- The Ethernet header and the kinds of MAC address.
use zgalaxy_rs.Prelude.{
  ◌≡◌, ◌≤◌, ◌<◌, ◌⊎◌, none, some, ◌++◌, length, arith, length-drop, length-take, take-append-drop,
  inl, inr, take, drop, list_eq, nat_eq,
}
use native.Mathlib.Decide.{dec_lt}
use zgalaxy_rs.Prelude.Bytes.{Bytes}
use zgalaxy_rs.L2Switch.{Mac, parse_ethernet}

-- A frame shorter than 14 bytes has no addresses. Any other is its six destination bytes, its six
-- source bytes and a rest of two bytes at least, and `parse_ethernet` gives the two addresses.
pub parse_ethernet_exact :
    (frame : Bytes)
    → ((length frame < 14) × (parse_ethernet frame ≡ none))
      ⊎ ((dst : Mac) × (src : Mac) × (rest : Bytes) × (parse_ethernet frame ≡ some (dst, src))
          × (length dst ≡ 6)
          × (length src ≡ 6)
          × (2 ≤ length rest)
          × (dst ++ (src ++ rest) ≡ frame))
unfolding parse_ethernet
parse_ethernet_exact frame = elim (dec_lt (length frame) 14) [
  | yes short ↦ inl (short, ground arith)
  | no long ↦
      let tail = drop 6 frame in
      inr (
        take 6 frame,
        take 6 tail,
        drop 6 tail,
        ground arith,
        omega (arith, length-take 6 frame),
        omega (arith, length-take 6 tail, length-drop 6 frame),
        omega (arith, length-drop 6 tail, length-drop 6 frame),
        rw (take-append-drop 6 tail) (take-append-drop 6 frame),
      )
]
