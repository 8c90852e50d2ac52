-- ===== src/Prelude/Bytes.antt =====
-- Byte strings, and the fixed-width integers that the program writes into them: `to_be_bytes`,
-- `from_be_bytes` and the `put_u64`/`get_u64` of a buffer.
use zgalaxy_rs.Prelude.Lists.{length, All, length-reverse, All-reverse}
use Prim.Native.Nat.{ℕ, zero, suc, ◌+◌, ◌*◌, ◌/◌, ◌%◌, ◌^◌, ◌<◌}
use mathlib.Core.Path.{◌≡◌, refl, ap, ap₂, ◌∙◌}
use mathlib.Core.List.{List, [], ◌∷◌, reverse, reverse-reverse}
use native.Mathlib.Omega.{arith}
use native.Mathlib.Nat.{pow-suc}

abbrev pub Bytes : Type 0
Bytes = List ℕ

abbrev pub IsByte : ℕ → Type 0
IsByte b = b < 256

abbrev pub IsBytes : Bytes → Type 0
IsBytes = All IsByte

unfoldable pub le_bytes : ℕ → ℕ → Bytes
le_bytes zero v = []
le_bytes (suc n) v = (v % 256) ∷ le_bytes n (v / 256)

unfoldable pub of_le_bytes : Bytes → ℕ
of_le_bytes [] = 0
of_le_bytes (b ∷ bs) = b + 256 * of_le_bytes bs

-- `v.to_be_bytes()` for an integer of `n` bytes.
unfoldable pub be_bytes : ℕ → ℕ → Bytes
unfolding le_bytes
be_bytes n v = reverse (le_bytes n v)

-- `uN::from_be_bytes(bs)`.
unfoldable pub of_be_bytes : Bytes → ℕ
unfolding of_le_bytes
of_be_bytes bs = of_le_bytes (reverse bs)

of_le_bytes-le_bytes : (n v : ℕ) → v < 256 ^ n → of_le_bytes (le_bytes n v) ≡ v
unfolding le_bytes of_le_bytes
of_le_bytes-le_bytes zero v h = omega arith
of_le_bytes-le_bytes (suc n) v h =
    let small : v / 256 < 256 ^ n = omega (arith, pow-suc 256 n) in
    omega (arith, of_le_bytes-le_bytes n (v / 256) small)

le_bytes-of_le_bytes : (bs : Bytes) → IsBytes bs → le_bytes (length bs) (of_le_bytes bs) ≡ bs
unfolding le_bytes of_le_bytes
le_bytes-of_le_bytes [] h = refl
le_bytes-of_le_bytes (b ∷ bs) h =
    let low : (b + 256 * of_le_bytes bs) % 256 ≡ b = omega (arith, h.0) in
    let high : (b + 256 * of_le_bytes bs) / 256 ≡ of_le_bytes bs = omega (arith, h.0) in
    ap₂ (λ x xs. x ∷ xs) low (ap (le_bytes (length bs)) high ∙ le_bytes-of_le_bytes bs h.1)

length-le_bytes : (n v : ℕ) → length (le_bytes n v) ≡ n
unfolding le_bytes
length-le_bytes zero v = refl
length-le_bytes (suc n) v = ap suc (length-le_bytes n (v / 256))

le_bytes-IsBytes : (n v : ℕ) → IsBytes (le_bytes n v)
unfolding le_bytes
le_bytes-IsBytes zero v = tt
le_bytes-IsBytes (suc n) v = (omega arith, le_bytes-IsBytes n (v / 256))

of_le_bytes-lt : (bs : Bytes) → IsBytes bs → of_le_bytes bs < 256 ^ length bs
unfolding of_le_bytes
of_le_bytes-lt [] h = omega arith
of_le_bytes-lt (b ∷ bs) h = omega (arith, h.0, pow-suc 256 (length bs), of_le_bytes-lt bs h.1)

pub of_be_bytes-be_bytes : (n v : ℕ) → v < 256 ^ n → of_be_bytes (be_bytes n v) ≡ v
unfolding be_bytes of_be_bytes
of_be_bytes-be_bytes n v h =
    ap of_le_bytes (reverse-reverse (le_bytes n v)) ∙ of_le_bytes-le_bytes n v h

pub length-be_bytes : (n v : ℕ) → length (be_bytes n v) ≡ n
unfolding be_bytes
length-be_bytes n v = length-reverse (le_bytes n v) ∙ length-le_bytes n v

pub be_bytes-IsBytes : (n v : ℕ) → IsBytes (be_bytes n v)
unfolding be_bytes
be_bytes-IsBytes n v = All-reverse IsByte (le_bytes n v) (le_bytes-IsBytes n v)

pub be_bytes-of_be_bytes :
    (n : ℕ) (bs : Bytes) → IsBytes bs → length bs ≡ n → be_bytes n (of_be_bytes bs) ≡ bs
unfolding be_bytes of_be_bytes
be_bytes-of_be_bytes n bs h e =
    rw (← e, ← length-reverse bs, le_bytes-of_le_bytes (reverse bs) (All-reverse IsByte bs h))
      (reverse-reverse bs)

pub of_be_bytes-lt : (n : ℕ) (bs : Bytes) → IsBytes bs → length bs ≡ n → of_be_bytes bs < 256 ^ n
unfolding of_be_bytes
of_be_bytes-lt n bs h e =
    rw (← e, ← length-reverse bs) (of_le_bytes-lt (reverse bs) (All-reverse IsByte bs h))
