-- ===== src/Controller/Plane/Octets.antt =====
-- The deterministic addresses determine the member, and RFC 4193 addresses the network too.
use zgalaxy_rs.Prelude.{
  ℕ, ◌/◌, ◌≡◌, ◌<◌, ◌^◌, true, some, [], ◌∷◌, length, arith, refl, ap, sym, ◌∙◌, Option-cases,
  some_inj, inl, inr,
}
use mathlib.Core.Path.{ap₂}
use zgalaxy_rs.Prelude.Bytes.{
  Bytes, IsBytes, be_bytes, of_be_bytes, le_bytes, be_bytes-of_be_bytes, of_be_bytes-lt,
  of_le_bytes,
}
use zgalaxy_rs.Prelude.Text.{Text, contains_char, starts_with, to_lowercase}
use zgalaxy_rs.Controller.IpText.{IpText}
use zgalaxy_rs.Controller.Plane.{
  from_hex, octets_6plane, octets_rfc4193, compute_6plane_ip, compute_rfc4193_ip, octets_text,
}

-- Sixteen octets.
pub record IsOctets (o : Bytes) : Type 0 where
  pub size : length o ≡ 16
  pub bytes : IsBytes o

octets_6plane-IsOctets : (n m : ℕ) → IsOctets (octets_6plane n m)
unfolding octets_6plane be_bytes le_bytes
octets_6plane-IsOctets n m = record { size = refl; bytes = omega arith }

octets_rfc4193-IsOctets : (n m : ℕ) → IsOctets (octets_rfc4193 n m)
unfolding octets_rfc4193 be_bytes le_bytes
octets_rfc4193-IsOctets n m = record { size = refl; bytes = omega arith }

of_be_bytes-injective :
    (a b : Bytes) → IsOctets a → IsOctets b → of_be_bytes a ≡ of_be_bytes b → a ≡ b
of_be_bytes-injective a b ha hb e =
    sym (be_bytes-of_be_bytes 16 a ha.bytes ha.size)
    ∙ (ap (be_bytes 16) e ∙ be_bytes-of_be_bytes 16 b hb.bytes hb.size)

octets_6plane-injective :
    (n a b : ℕ) → a < 2 ^ 40 → b < 2 ^ 40 → octets_6plane n a ≡ octets_6plane n b → a ≡ b
unfolding octets_6plane be_bytes le_bytes
octets_6plane-injective n a b ha hb e = ground arith

octets_rfc4193-injective :
    (n k a b : ℕ)
    → n < 2 ^ 64
    → k < 2 ^ 64
    → a < 2 ^ 40
    → b < 2 ^ 40
    → octets_rfc4193 n a ≡ octets_rfc4193 k b
    → (n ≡ k) × (a ≡ b)
unfolding octets_rfc4193 be_bytes le_bytes
octets_rfc4193-injective n k a b hn hk ha hb e = ground arith

octets_6plane-first : (n m : ℕ) → of_be_bytes (octets_6plane n m) / 2 ^ 120 ≡ 0xfc
unfolding octets_6plane be_bytes le_bytes of_be_bytes of_le_bytes
octets_6plane-first n m = omega arith

octets_rfc4193-first : (n m : ℕ) → of_be_bytes (octets_rfc4193 n m) / 2 ^ 120 ≡ 0xfd
unfolding octets_rfc4193 be_bytes le_bytes of_be_bytes of_le_bytes
octets_rfc4193-first n m = omega arith

module _ (ips : IpText) where
  open ips use {v6_text, v6_parse, v6_parse_text, v6_text_colon, v6_text_fc, v6_text_fd}

  octets_text-injective :
      (a b : Bytes) → IsOctets a → IsOctets b → octets_text ips a ≡ octets_text ips b → a ≡ b
  octets_text-injective a b ha hb e = of_be_bytes-injective a b ha hb (
      some_inj (
        sym (v6_parse_text (of_be_bytes a) (of_be_bytes-lt 16 a ha.bytes ha.size))
        ∙ (ap v6_parse e ∙ v6_parse_text (of_be_bytes b) (of_be_bytes-lt 16 b hb.bytes hb.size))))

  -- The two addresses, where the ids are numbers; and none where one is not.
  pub compute_6plane_ip-some :
      (nwid member_id : Text) (t : Text)
      → compute_6plane_ip ips nwid member_id ≡ some t
      → (n : ℕ) × (m : ℕ) × (from_hex nwid ≡ some n)
        × (from_hex member_id ≡ some m)
        × (t ≡ octets_text ips (octets_6plane n m))
  unfolding compute_6plane_ip
  compute_6plane_ip-some nwid member_id t h = elim (Option-cases (from_hex nwid)) [
    | inl e ↦ absurd (ground arith)
    | inr (n, e) ↦ elim (Option-cases (from_hex member_id)) [
      | inl k ↦ absurd (ground arith)
      | inr (m, k) ↦ (n, m, e, k, ground arith)
    ]
  ]

  pub compute_rfc4193_ip-some :
      (nwid member_id : Text) (t : Text)
      → compute_rfc4193_ip ips nwid member_id ≡ some t
      → (n : ℕ) × (m : ℕ) × (from_hex nwid ≡ some n)
        × (from_hex member_id ≡ some m)
        × (t ≡ octets_text ips (octets_rfc4193 n m))
  unfolding compute_rfc4193_ip
  compute_rfc4193_ip-some nwid member_id t h = elim (Option-cases (from_hex nwid)) [
    | inl e ↦ absurd (ground arith)
    | inr (n, e) ↦ elim (Option-cases (from_hex member_id)) [
      | inl k ↦ absurd (ground arith)
      | inr (m, k) ↦ (n, m, e, k, ground arith)
    ]
  ]

  pub compute_6plane_ip-shape :
      (nwid member_id : Text) (t : Text)
      → compute_6plane_ip ips nwid member_id ≡ some t
      → (contains_char t b':' ≡ true) × (starts_with (to_lowercase t) (b'f' ∷ b'c' ∷ []) ≡ true)
  compute_6plane_ip-shape nwid member_id t h =
      let (n, m, e1, e2, e3) = compute_6plane_ip-some nwid member_id t h in
      (rw e3 (v6_text_colon _), rw e3 (v6_text_fc _ (octets_6plane-first n m)))

  pub compute_rfc4193_ip-shape :
      (nwid member_id : Text) (t : Text)
      → compute_rfc4193_ip ips nwid member_id ≡ some t
      → (contains_char t b':' ≡ true) × (starts_with (to_lowercase t) (b'f' ∷ b'd' ∷ []) ≡ true)
  compute_rfc4193_ip-shape nwid member_id t h =
      let (n, m, e1, e2, e3) = compute_rfc4193_ip-some nwid member_id t h in
      (rw e3 (v6_text_colon _), rw e3 (v6_text_fd _ (octets_rfc4193-first n m)))

  -- In one network two members whose ids are numbers below 2^40 have the same 6PLANE address only if
  -- the ids are the same number; and the address has a colon and begins with "fc".
  pub compute_6plane_ip-injective :
      (nwid a b : Text) (t : Text) (x y : ℕ)
      → from_hex a ≡ some x
      → from_hex b ≡ some y
      → x < 2 ^ 40
      → y < 2 ^ 40
      → compute_6plane_ip ips nwid a ≡ some t
      → compute_6plane_ip ips nwid b ≡ some t
      → (x ≡ y)
        × ((contains_char t b':' ≡ true) × (starts_with (to_lowercase t) (b'f' ∷ b'c' ∷ []) ≡ true))
  compute_6plane_ip-injective nwid a b t x y ea eb hx hy ca cb =
      let (n, m, e1, e2, e3) = compute_6plane_ip-some nwid a t ca in
      let (k, l, f1, f2, f3) = compute_6plane_ip-some nwid b t cb in
      let same_n : n ≡ k = some_inj (sym e1 ∙ f1) in
      let same_m : m ≡ x = some_inj (sym e2 ∙ ea) in
      let same_l : l ≡ y = some_inj (sym f2 ∙ eb) in
      let octets =
        octets_text-injective (octets_6plane n m) (octets_6plane k l) (octets_6plane-IsOctets n m)
          (octets_6plane-IsOctets k l) (sym e3 ∙ f3) in
      (
        octets_6plane-injective n x y hx hy
            (ap (octets_6plane n) (sym same_m) ∙ (octets ∙ ap₂ octets_6plane (sym same_n) same_l)),
        compute_6plane_ip-shape nwid a t ca,
      )

  -- Two RFC 4193 addresses agree only if both the network ids and the member ids, a number below 2^64
  -- and one below 2^40, agree; and the address has a colon and begins with "fd".
  pub compute_rfc4193_ip-injective :
      (nwid nwid' a b : Text) (t : Text) (v w x y : ℕ)
      → from_hex nwid ≡ some v
      → from_hex nwid' ≡ some w
      → from_hex a ≡ some x
      → from_hex b ≡ some y
      → v < 2 ^ 64
      → w < 2 ^ 64
      → x < 2 ^ 40
      → y < 2 ^ 40
      → compute_rfc4193_ip ips nwid a ≡ some t
      → compute_rfc4193_ip ips nwid' b ≡ some t
      → (v ≡ w)
        × (x ≡ y)
        × ((contains_char t b':' ≡ true) × (starts_with (to_lowercase t) (b'f' ∷ b'd' ∷ []) ≡ true))
  compute_rfc4193_ip-injective nwid nwid' a b t v w x y ev ew ea eb hv hw hx hy ca cb =
      let (n, m, e1, e2, e3) = compute_rfc4193_ip-some nwid a t ca in
      let (k, l, f1, f2, f3) = compute_rfc4193_ip-some nwid' b t cb in
      let octets =
        octets_text-injective (octets_rfc4193 n m) (octets_rfc4193 k l)
          (octets_rfc4193-IsOctets n m) (octets_rfc4193-IsOctets k l) (sym e3 ∙ f3) in
      let left : octets_rfc4193 v x ≡ octets_rfc4193 n m =
        ap₂ octets_rfc4193 (some_inj (sym ev ∙ e1)) (some_inj (sym ea ∙ e2)) in
      let right : octets_rfc4193 k l ≡ octets_rfc4193 w y =
        ap₂ octets_rfc4193 (some_inj (sym f1 ∙ ew)) (some_inj (sym f2 ∙ eb)) in
      let both_same = octets_rfc4193-injective v w x y hv hw hx hy (left ∙ (octets ∙ right)) in
      (both_same.0, both_same.1, compute_rfc4193_ip-shape nwid a t ca)
