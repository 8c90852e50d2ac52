-- ===== src/Controller/IpText.antt =====
-- `Ipv4Addr` and `Ipv6Addr` of `std::net`, which the controller prints and parses, as an interface:
-- an address is a number below 2^32 or 2^128.
use zgalaxy_rs.Prelude.{ℕ, ◌≡◌, ◌<◌, ◌^◌, Option, some, true, false, ◌/◌, ◌∷◌, []}
use zgalaxy_rs.Prelude.Text.{Text, contains_char, starts_with, to_lowercase}

pub record IpText : Type 0 where
  pub v4_text : ℕ → Text
  pub v4_parse : Text → Option ℕ
  pub v6_text : ℕ → Text
  pub v6_parse : Text → Option ℕ
  pub v4_parse_text : (a : ℕ) → a < 2 ^ 32 → v4_parse (v4_text a) ≡ some a
  pub v6_parse_text : (a : ℕ) → a < 2 ^ 128 → v6_parse (v6_text a) ≡ some a
  pub v4_parse_range : (t : Text) (a : ℕ) → v4_parse t ≡ some a → a < 2 ^ 32
  pub v6_parse_range : (t : Text) (a : ℕ) → v6_parse t ≡ some a → a < 2 ^ 128
  -- Dotted decimal has no colon, and every printed IPv6 address has one.
  pub v4_text_colon : (a : ℕ) → contains_char (v4_text a) b':' ≡ false
  pub v6_text_colon : (a : ℕ) → contains_char (v6_text a) b':' ≡ true
  -- A first byte of 0xfc or 0xfd is printed as the first two of four lower-case digits.
  pub v6_text_fc :
      (a : ℕ)
      → a / 2 ^ 120 ≡ 0xfc
      → starts_with (to_lowercase (v6_text a)) (b'f' ∷ b'c' ∷ []) ≡ true
  pub v6_text_fd :
      (a : ℕ)
      → a / 2 ^ 120 ≡ 0xfd
      → starts_with (to_lowercase (v6_text a)) (b'f' ∷ b'd' ∷ []) ≡ true
