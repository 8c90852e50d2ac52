-- ===== src/Prelude/Slice.antt =====
-- `bs[..n]` and `&data[cursor..cursor + n]`, with the cursor behind what was dropped: a slice that
-- ends behind the data panics.
use zgalaxy_rs.Prelude.Tests.{ltb, if◌then◌else◌}
use zgalaxy_rs.Prelude.Lists.{length, take, take-exact, length-append}
use zgalaxy_rs.Prelude.Bytes.{Bytes}
use zgalaxy_rs.Prelude.Outcome.{Outcome, ok, panic}
use Prim.Native.Nat.{ℕ, ◌≤◌}
use mathlib.Core.Path.{◌≡◌, refl, ap, ◌∙◌}
use mathlib.Core.List.{◌++◌}
use native.Mathlib.Omega.{arith}

unfoldable pub slice : {E : Type 0} → ℕ → Bytes → Outcome E Bytes
slice n bs = if ltb (length bs) n then panic else ok (take n bs)

module _ {E : Type 0} where
  pub slice-ok : (n : ℕ) (bs : Bytes) → n ≤ length bs → slice {E = E} n bs ≡ ok (take n bs)
  unfolding slice
  slice-ok n bs h = ground (arith, h)

  pub slice-exact : (n : ℕ) (xs ys : Bytes) → length xs ≡ n → slice {E = E} n (xs ++ ys) ≡ ok xs
  slice-exact n xs ys h =
      slice-ok n (xs ++ ys) (omega (arith, length-append xs ys, h)) ∙ ap ok (take-exact n xs ys h)

  pub slice-append : (xs ys : Bytes) → slice {E = E} (length xs) (xs ++ ys) ≡ ok xs
  slice-append xs ys = slice-exact (length xs) xs ys refl
