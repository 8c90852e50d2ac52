-- ===== src/Identity/Keys/Total.antt =====
-- The parsing of an identity string, which may come from any remote, does not panic.
use zgalaxy_rs.Prelude.{
  ℕ, ◌≡◌, ◌≢◌, ◌<◌, ◌≤◌, zero, suc, refl, Bool, if◌then◌else◌, true, false, Option, none, some,
  List, [], ◌∷◌, length, arith, nat_beq, get_elem?, take, drop, leb, Option-cases, Bool-cases, inl,
  inr, length-take, length-drop,
}
use zgalaxy_rs.Prelude.Bytes.{Bytes}
use zgalaxy_rs.Prelude.Text.{Text, trim}
use zgalaxy_rs.Prelude.Outcome.{Outcome, ok, err, panic, ◌>>=◌, Outcome-cases}
use zgalaxy_rs.Prelude.Slice.{slice, slice-ok}
use zgalaxy_rs.Identity.Address.{Address, of_slice}
use zgalaxy_rs.Identity.Address.Display.{HexCrate, from_str, copy_address, decode_trimmed}
use zgalaxy_rs.Identity.Keys.{
  IdentityError, second_half, SignCrate, split, parse, assemble, split_key, verifying_of,
  signing_of, secret_of, address_for, from_public_key, or_null, decode_part, part_at,
}

of_slice-five : (bs : Bytes) → length bs ≡ 5 → of_slice bs ≢ none
unfolding of_slice
of_slice-five [] h = absurd (ground arith)
of_slice-five (a ∷ []) h = absurd (ground arith)
of_slice-five (a ∷ b ∷ []) h = absurd (ground arith)
of_slice-five (a ∷ b ∷ c ∷ []) h = absurd (ground arith)
of_slice-five (a ∷ b ∷ c ∷ d ∷ []) h = absurd (ground arith)
of_slice-five (a ∷ b ∷ c ∷ d ∷ e ∷ []) h = λ k. cc
of_slice-five (a ∷ b ∷ c ∷ d ∷ e ∷ f ∷ bs) h = absurd (omega (arith, h))

-- No panic.
abbrev IsSafe : {E A : Type 0} → Outcome E A → Type 0
IsSafe o = o ≢ panic

ok-IsSafe : {E A : Type 0} (a : A) → ◌≢◌ {A = Outcome E A} (ok a) panic
ok-IsSafe a h = cc

bind-IsSafe :
    {E A B : Type 0} (o : Outcome E A) (f : A → Outcome E B)
    → IsSafe o
    → ((a : A) → IsSafe (f a))
    → IsSafe (o >>= f)
bind-IsSafe (ok a) f h k = k a
bind-IsSafe (err e) f h k = λ q. cc
bind-IsSafe panic f h k = absurd (h refl)

if-IsSafe :
    {E A : Type 0} (b : Bool) (x y : Outcome E A)
    → IsSafe x
    → IsSafe y
    → IsSafe (if b then x else y)
if-IsSafe true x y h k = h
if-IsSafe false x y h k = k

module _ (crypto : SignCrate) (hex : HexCrate) where
  from_public_key-IsSafe : (key : Bytes) → IsSafe (from_public_key crypto key)
  unfolding from_public_key
  from_public_key-IsSafe key = λ h.
      let size : length (take 5 (drop 59 (crypto.sha512 key))) ≡ 5 = omega (
        arith,
        length-take 5 (drop 59 (crypto.sha512 key)),
        length-drop 59 (crypto.sha512 key),
        crypto.sha512_length key,
      ) in
      elim (Option-cases (of_slice (take 5 (drop 59 (crypto.sha512 key))))) [
        | inl e ↦ of_slice-five (take 5 (drop 59 (crypto.sha512 key))) size e
        | inr (a, e) ↦ ground arith
      ]

  from_str-IsSafe : (t : Text) → IsSafe (from_str hex t)
  unfolding from_str copy_address decode_trimmed
  from_str-IsSafe t = λ h. elim (Bool-cases (nat_beq (length (trim t)) 10)) [
    | inr e ↦ ground arith
    | inl e ↦ elim (Option-cases (hex.decode (trim t))) [
      | inl f ↦ ground arith
      | inr (bs, f) ↦ elim (Bool-cases (nat_beq (length bs) 5)) [
        | inr g ↦ ground arith
        | inl g ↦ elim (Option-cases (of_slice bs)) [
          | inl k ↦ of_slice-five bs (ground arith) k
          | inr (a, k) ↦ ground arith
        ]
      ]
    ]
  ]

  -- The second half of 64 bytes is there, and has 32 bytes.
  half_lem :
      (bs : Bytes)
      → 64 ≤ length bs
      → (slice {E = IdentityError} 32 (drop 32 bs) ≡ ok (take 32 (drop 32 bs)))
        × (length (take 32 (drop 32 bs)) ≡ 32)
  half_lem bs h =
      let size : 32 ≤ length (drop 32 bs) = omega (arith, h, length-drop 32 bs) in
      (slice-ok 32 (drop 32 bs) size, omega (arith, size, length-take 32 (drop 32 bs)))

  split_key-IsSafe : (key : Bytes) → IsSafe (split_key crypto key)
  unfolding split_key
  split_key-IsSafe key = elim (Bool-cases (nat_beq (length key) 64)) [
    | inl e ↦
        let (read, size) = half_lem key (ground arith) in
        let whole : nat_beq (length (take 32 (drop 32 key))) 32 ≡ true = ground (arith, size) in
        rw (split_key, e, read, whole)
          (bind-IsSafe (from_public_key crypto key) _ (from_public_key-IsSafe key)
            (λ a. ok-IsSafe _))
    | inr e ↦ elim (Bool-cases (nat_beq (length key) 32)) [
      | inl f ↦
          rw (split_key, e, f)
            (bind-IsSafe (from_public_key crypto key) _ (from_public_key-IsSafe key)
              (λ a. ok-IsSafe _))
      | inr f ↦ λ h. ground arith
    ]
  ]

  verifying_of-IsSafe : (key arr : Bytes) → IsSafe (verifying_of crypto key arr)
  unfolding verifying_of
  verifying_of-IsSafe key arr = λ h. elim (Option-cases (crypto.vk_from_bytes arr)) [
    | inr (vk, e) ↦ ground arith
    | inl e ↦ elim (Option-cases (crypto.vk_from_bytes (take 32 key))) [
      | inl f ↦ ground (arith, slice-ok {E = IdentityError} 32 key)
      | inr (vk, f) ↦ ground (arith, slice-ok {E = IdentityError} 32 key)
    ]
  ]

  second_half-IsSafe : (bs key : Bytes) → IsSafe (second_half crypto bs key)
  unfolding second_half
  second_half-IsSafe bs key = λ h. ground (arith, half_lem bs)

  secret_of-IsSafe : (bs key : Bytes) → IsSafe (secret_of crypto bs key)
  unfolding secret_of
  secret_of-IsSafe bs key =
      λ h. ground (arith, slice-ok {E = IdentityError} 32 bs, second_half-IsSafe bs key)

  decode_part-IsSafe : (t : Text) → IsSafe (decode_part crypto hex t)
  decode_part-IsSafe t =
      λ h. elim (Option-cases (hex.decode t)) [ inl e ↦ ground arith | inr (bs, e) ↦ ground arith ]

  signing_part-IsSafe :
      (t : Text) (key : Bytes)
      → IsSafe
          (decode_part crypto hex t >>= (λ bs. secret_of crypto bs key >>= (λ sk. ok (some sk))))
  signing_part-IsSafe t key = bind-IsSafe (decode_part crypto hex t) _ (decode_part-IsSafe t) (λ bs.
      bind-IsSafe (secret_of crypto bs key) _ (secret_of-IsSafe bs key) (λ sk. ok-IsSafe (some sk)))

  signing_of-IsSafe : (parts : List Text) (key : Bytes) → IsSafe (signing_of crypto hex parts key)
  unfolding signing_of
  signing_of-IsSafe parts key = go (get_elem? parts 3) refl
    where
      go :
          (part : Option Text) → get_elem? parts 3 ≡ part → IsSafe (signing_of crypto hex parts key)
      go none e = rw (signing_of, e) (ok-IsSafe none)
      go (some []) e = rw (signing_of, e) (ok-IsSafe none)
      go (some (c ∷ t)) e = rw (signing_of, e) (signing_part-IsSafe (c ∷ t) key)

  address_for-IsSafe : (a b : Address) (key : Bytes) → IsSafe (address_for crypto hex a key b)
  unfolding address_for
  address_for-IsSafe a b key = λ h. ground arith

  assemble-IsSafe :
      (parts : List Text) (parsed : Address) (key : Bytes)
      → IsSafe (assemble crypto hex parts parsed key)
  unfolding assemble
  assemble-IsSafe parts parsed key =
      bind-IsSafe (split_key crypto key) _ (split_key-IsSafe key) (λ r.
        bind-IsSafe (verifying_of crypto key r.0) _ (verifying_of-IsSafe key r.0) (λ vk.
          bind-IsSafe (signing_of crypto hex parts r.0) _ (signing_of-IsSafe parts r.0) (λ sk.
            bind-IsSafe (address_for crypto hex parsed key r.1) _
              (address_for-IsSafe parsed r.1 key) (λ a. ok-IsSafe _))))

  or_null-IsSafe : (t : Text) → IsSafe (or_null crypto (from_str hex t))
  or_null-IsSafe t = λ h. elim (Outcome-cases (from_str hex t)) [
    | inl (a, e) ↦ ground arith
    | inr (inl (x, e)) ↦ ground arith
    | inr (inr e) ↦ from_str-IsSafe t e
  ]

  get_elem?-lt : (parts : List Text) (i : ℕ) → i < length parts → get_elem? parts i ≢ none
  get_elem?-lt [] i h = absurd (omega (arith, h))
  get_elem?-lt (t ∷ parts) zero h = λ k. ground arith
  get_elem?-lt (t ∷ parts) (suc i) h = get_elem?-lt parts i (omega (arith, h))

  part_at-IsSafe : (parts : List Text) (i : ℕ) → i < length parts → IsSafe (part_at crypto parts i)
  part_at-IsSafe parts i h = λ k. elim (Option-cases (get_elem? parts i)) [
    | inl e ↦ get_elem?-lt parts i h e
    | inr (t, e) ↦ ground arith
  ]

  -- Parsing an identity string gives an identity or an error: no text makes it panic, for the digest
  -- has the 64 bytes that are taken apart, an address has five bytes when they are copied, and the
  -- parts of the text and the halves of the keys that are read are there.
  pub parse-IsSafe : (s : Text) → IsSafe (parse crypto hex s)
  unfolding parse
  parse-IsSafe s =
      let parts : List Text = split b':' (trim s) in
      elim (Bool-cases (leb 3 (length parts))) [
        | inr e ↦ λ h. ground arith
        | inl e ↦
            rw (parse, e)
              (bind-IsSafe (part_at crypto parts 0) _ (part_at-IsSafe parts 0 (ground arith))
                (λ first.
                  bind-IsSafe (or_null crypto (from_str hex first)) _ (or_null-IsSafe first) (λ a.
                    bind-IsSafe (part_at crypto parts 2) _ (part_at-IsSafe parts 2 (ground arith))
                      (λ third.
                        bind-IsSafe (decode_part crypto hex third) _ (decode_part-IsSafe third)
                          (λ bs. assemble-IsSafe parts a bs)))))
      ]
