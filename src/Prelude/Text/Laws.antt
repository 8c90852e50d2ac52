-- ===== src/Prelude/Text/Laws.antt =====
-- Text without white space at its ends is its own `trim`; lower-case text is its own `to_lowercase`.
use Prim.Native.Nat.{ℕ, ◌<◌, ◌*◌}
use mathlib.Core.Path.{◌≡◌, refl}
use mathlib.Core.Bool.{false, true}
use mathlib.Core.List.{List, [], ◌∷◌, reverse, reverse-reverse}
use native.Mathlib.Omega.{arith}
use zgalaxy_rs.Prelude.Lists.{length, All, All-reverse}
use zgalaxy_rs.Prelude.Bytes.{IsBytes}
use zgalaxy_rs.Prelude.Text.{
  Text, is_space, is_hex, lower, to_lowercase, trim_start, trim, hex_digit, hex_encode,
}

abbrev pub NoSpace : Text → Type 0
NoSpace = All (λ c. is_space c ≡ false)

-- Lower-case hexadecimal digits.
abbrev pub IsLowerHex : Text → Type 0
IsLowerHex = All (λ c. (is_hex c ≡ true) × (lower c ≡ c))

trim_start-NoSpace : (t : Text) → NoSpace t → trim_start t ≡ t
unfolding trim_start
trim_start-NoSpace [] h = refl
trim_start-NoSpace (c ∷ t) h = rw h.0

pub trim-NoSpace : (t : Text) → NoSpace t → trim t ≡ t
unfolding trim
trim-NoSpace t h =
    rw (trim_start-NoSpace t h, trim_start-NoSpace (reverse t) (All-reverse _ t h))
      (reverse-reverse t)

pub IsLowerHex-NoSpace : (t : Text) → IsLowerHex t → NoSpace t
IsLowerHex-NoSpace [] h = tt
IsLowerHex-NoSpace (c ∷ t) h = (ground arith, IsLowerHex-NoSpace t h.1)

pub to_lowercase-IsLowerHex : (t : Text) → IsLowerHex t → to_lowercase t ≡ t
to_lowercase-IsLowerHex [] h = refl
to_lowercase-IsLowerHex (c ∷ t) h = rw (h.0.1, to_lowercase-IsLowerHex t h.1)

hex_digit_lem :
    (d : ℕ) → d < 16 → (is_hex (hex_digit d) ≡ true) × (lower (hex_digit d) ≡ hex_digit d)
hex_digit_lem d h = ground arith

pub hex_encode-IsLowerHex : (bs : List ℕ) → IsBytes bs → IsLowerHex (hex_encode bs)
unfolding hex_encode
hex_encode-IsLowerHex [] h = tt
hex_encode-IsLowerHex (b ∷ bs) h = (
  hex_digit_lem _ (omega (arith, h.0)),
  (hex_digit_lem _ (omega arith), hex_encode-IsLowerHex bs h.1),
)

pub length-hex_encode : (bs : List ℕ) → length (hex_encode bs) ≡ 2 * length bs
unfolding hex_encode
length-hex_encode [] = omega arith
length-hex_encode (b ∷ bs) = omega (arith, length-hex_encode bs)
