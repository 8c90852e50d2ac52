-- ===== src/Packet/Buf.antt =====
-- The `Buf` and `BufMut` methods of the `bytes` crate that `encode` and `decode` call, as an
-- interface with the documented behaviour: the writers append in big-endian order, and the readers
-- take from the front.
use zgalaxy_rs.Prelude.{
  ℕ, ◌≡◌, ◌≤◌, sym, ◌∙◌, ap, List, [], ◌∷◌, ◌++◌, length, take, drop, arith, take-append-drop,
  length-take,
}
use zgalaxy_rs.Prelude.Bytes.{Bytes, be_bytes, of_be_bytes}
use zgalaxy_rs.Prelude.Outcome.{Outcome, ok}

pub data PacketError : Type 0 where
  -- The expected and the actual length.
  truncated : ℕ → ℕ → PacketError

abbrev pub Read : Type 0 → Type 0
Read A = Bytes → Outcome PacketError (A × Bytes)

pub record BytesCrate : Type 0 where
  pub put_u64 : Bytes → ℕ → Bytes
  pub put_u8 : Bytes → ℕ → Bytes
  pub put_slice : Bytes → Bytes → Bytes
  pub get_u64 : Read ℕ
  pub get_u8 : Read ℕ
  -- `copy_to_slice` into a buffer of so many bytes.
  pub copy_to_slice : ℕ → Read Bytes
  pub put_u64_lem : (buf : Bytes) (v : ℕ) → put_u64 buf v ≡ buf ++ be_bytes 8 v
  pub put_u8_lem : (buf : Bytes) (v : ℕ) → put_u8 buf v ≡ buf ++ v ∷ []
  pub put_slice_lem : (buf bs : Bytes) → put_slice buf bs ≡ buf ++ bs
  pub get_u64_lem :
      (bs rest : Bytes) → length bs ≡ 8 → get_u64 (bs ++ rest) ≡ ok (of_be_bytes bs, rest)
  pub get_u8_lem : (b : ℕ) (rest : Bytes) → get_u8 (b ∷ rest) ≡ ok (b, rest)
  pub copy_to_slice_lem :
      (n : ℕ) (bs rest : Bytes) → length bs ≡ n → copy_to_slice n (bs ++ rest) ≡ ok (bs, rest)

pub length-take_le : {A : Type 0} (n : ℕ) (xs : List A) → n ≤ length xs → length (take n xs) ≡ n
length-take_le n xs h = omega (arith, length-take n xs)

module _ (buf : BytesCrate) where
  open buf use {get_u64, copy_to_slice, get_u64_lem, copy_to_slice_lem}

  pub get_u64-take :
      (bs : Bytes) → 8 ≤ length bs → get_u64 bs ≡ ok (of_be_bytes (take 8 bs), drop 8 bs)
  get_u64-take bs h =
      ap get_u64 (sym (take-append-drop 8 bs))
      ∙ get_u64_lem (take 8 bs) (drop 8 bs) (length-take_le 8 bs h)

  pub copy_to_slice-take :
      (n : ℕ) (bs : Bytes) → n ≤ length bs → copy_to_slice n bs ≡ ok (take n bs, drop n bs)
  copy_to_slice-take n bs h =
      ap (copy_to_slice n) (sym (take-append-drop n bs))
      ∙ copy_to_slice_lem n (take n bs) (drop n bs) (length-take_le n bs h)
