-- ===== src/World/Canonical/Signed.antt =====
-- A signed world in the canonical format is read back.
use zgalaxy_rs.Prelude.{
  ℕ, ◌%◌, ◌^◌, ◌≡◌, ◌≤◌, ◌<◌, ◌∙◌, refl, ap, sym, true, Option, some, List, ◌∷◌, ◌++◌, length, take,
  drop, All, map, arith, take-exact, drop-exact, length-append, Option-cases, inl, inr,
}
use zgalaxy_rs.Prelude.Bytes.{Bytes, be_bytes}
use zgalaxy_rs.Prelude.Text.{Text}
use zgalaxy_rs.Prelude.Outcome.{Outcome, ok, err, panic, Outcome-cases}
use zgalaxy_rs.Identity.Keys.{SignCrate, Identity, sign}
use zgalaxy_rs.Controller.IpText.{IpText}
use zgalaxy_rs.World.{Utf8, World}
use zgalaxy_rs.World.Parse.{parse_roots, parse_binary}
use zgalaxy_rs.World.Canonical.{
  PortText, canonical_key_set, canonical_roots_from, encode_canonical_roots, canonical_body_of,
  for_sign, encode_canonical,
}
use zgalaxy_rs.World.Canonical.Layout.{
  arranged, head_of, length-head_of, head_of-append, arranged_lem, parse_with_header,
}
use zgalaxy_rs.World.Canonical.Endpoints.{length-canonical_key_set, Fits, read_root, roots_lem}

ok_inj : {E A : Type 0} {a b : A} → (◌≡◌ {A = Outcome E A} (ok a) (ok b)) → a ≡ b
ok_inj h = cc

ok_err : {E A : Type 0} {a : A} {x : E} → (◌≡◌ {A = Outcome E A} (ok a) (err x)) → ⊥
ok_err h = ground arith

ok_panic : {E A : Type 0} {a : A} → (◌≡◌ {A = Outcome E A} (ok a) panic) → ⊥
ok_panic h = ground arith

module _ (utf8 : Utf8) (decimal : ℕ → Text) where
  module _ (ips : IpText) (ports : PortText) (crypto : SignCrate) where
    open crypto use {vk_to_bytes}

    -- What fits the fields of the canonical format, and the sizes of Ed25519.
    pub record IsCanonical (w : World) (signer : Identity crypto) : Type 0 where
      pub id : w.id < 2 ^ 64
      pub timestamp : w.timestamp < 2 ^ 64
      pub count : length w.roots ≤ 16
      pub roots : All (Fits utf8 decimal ips ports) w.roots
      pub key : length (vk_to_bytes signer.verifying_key) ≡ 32
      pub signature : (s : crypto.Signature) → length (crypto.signature_bytes s) ≡ 64

    -- The world that is read back.
    abbrev pub read_world : World → Bytes → World
    read_world w sig = record {
      world_type = w.world_type;
      id = w.id;
      timestamp = w.timestamp;
      roots = map (read_root utf8 decimal ips ports) w.roots;
      signature = sig;
    }

    sign-length :
        (signer : Identity crypto) (m sig : Bytes)
        → ((s : crypto.Signature) → length (crypto.signature_bytes s) ≡ 64)
        → sign crypto signer m ≡ ok sig
        → length sig ≡ 64
    unfolding sign
    sign-length signer m sig sizes h = elim (Option-cases signer.signing_key) [
      | inl e ↦ absurd (ground arith)
      | inr (sk, e) ↦
          let same : crypto.signature_bytes (crypto.sign_with sk m) ≡ sig = ground arith in
          rw (← same) (sizes (crypto.sign_with sk m))
    ]

    -- What is written: the body, with the signature in it.
    written_lem :
        (w : World) (signer : Identity crypto) (keys : List (Option Bytes)) (out : Bytes)
        → encode_canonical ips ports crypto w signer keys ≡ ok out
        → let body = canonical_body_of ips ports crypto w signer keys in
          (sig : Bytes) × (sign crypto signer (for_sign ips ports crypto body) ≡ ok sig)
          × (out ≡ take 81 body ++ ((sig ++ vk_to_bytes signer.verifying_key) ++ drop 81 body))
    unfolding encode_canonical
    written_lem w signer keys out h =
        let m : Bytes =
          for_sign ips ports crypto (canonical_body_of ips ports crypto w signer keys) in
        elim (Outcome-cases (sign crypto signer m)) [
          | inl (sig, e) ↦ (sig, e, sym (ok_inj (sym (rw (encode_canonical, e) refl) ∙ h)))
          | inr (inl (x, e)) ↦ absurd (ok_err {x = x} (sym h ∙ rw (encode_canonical, e) refl))
          | inr (inr e) ↦ absurd (ok_panic (sym h ∙ rw (encode_canonical, e) refl))
        ]

    -- The keys that must sign an update, and the roots with the empty dictionary behind them.
    own_keys : Identity crypto → Bytes
    own_keys signer = canonical_key_set (some (vk_to_bytes signer.verifying_key))

    behind_count : World → List (Option Bytes) → Bytes
    behind_count w keys = canonical_roots_from ips ports 0 w.roots keys ++ be_bytes 2 0

    body_split :
        (w : World) (signer : Identity crypto) (keys : List (Option Bytes))
        → canonical_body_of ips ports crypto w signer keys
          ≡ head_of w.world_type w.id w.timestamp (own_keys signer)
            ++ ((length w.roots % 256) ∷ behind_count w keys)
    unfolding canonical_body_of encode_canonical_roots own_keys behind_count
    body_split w signer keys = sym (
        head_of-append w.world_type w.id w.timestamp (own_keys signer)
          ((length w.roots % 256) ∷ behind_count w keys))

    arranged_body :
        (w : World) (signer : Identity crypto) (keys : List (Option Bytes)) (sig : Bytes)
        → let body = canonical_body_of ips ports crypto w signer keys in
          take 81 body ++ (sig ++ drop 81 body)
          ≡ arranged w.world_type w.id w.timestamp
              (own_keys signer)
              sig
              (length w.roots % 256)
              (behind_count w keys)
    unfolding own_keys
    arranged_body w signer keys sig =
        let head : Bytes = head_of w.world_type w.id w.timestamp (own_keys signer) in
        let tail : Bytes = (length w.roots % 256) ∷ behind_count w keys in
        let size : length head ≡ 81 =
          length-head_of w.world_type w.id w.timestamp (own_keys signer)
            (length-canonical_key_set (some (vk_to_bytes signer.verifying_key))) in
        ap (λ b. take 81 b ++ (sig ++ drop 81 b)) (body_split w signer keys)
        ∙ ap (λ t. t ++ (sig ++ drop 81 (head ++ tail))) (take-exact 81 head tail size)
        ∙ ap (λ t. head ++ (sig ++ t)) (drop-exact 81 head tail size)
        ∙ head_of-append w.world_type w.id w.timestamp (own_keys signer) (sig ++ tail)

    -- A world of at most 16 roots, each with fewer than 256 endpoints that have a literal address, whose
    -- id and timestamp fit 64 bits, written and signed in the canonical format with a key of 32 bytes
    -- and signatures of 64, is read back with its type, id and timestamp, its roots in their order,
    -- each with those of its endpoints that have a literal address, printed from the address, and the
    -- signature of the body, followed by the signer's public key.
    pub parse_binary-encode_canonical :
        (w : World) (signer : Identity crypto) (keys : List (Option Bytes)) (out : Bytes)
        → IsCanonical w signer
        → encode_canonical ips ports crypto w signer keys ≡ ok out
        → (sig : Bytes) × (sign crypto signer
              (for_sign ips ports crypto (canonical_body_of ips ports crypto w signer keys))
            ≡ ok sig)
          × (parse_binary utf8 decimal out
              ≡ ok (read_world w (sig ++ vk_to_bytes signer.verifying_key)))
    unfolding own_keys behind_count
    parse_binary-encode_canonical w signer keys out h e =
        let m : Bytes =
          for_sign ips ports crypto (canonical_body_of ips ports crypto w signer keys) in
        let (sig, signed, shape) = written_lem w signer keys out e in
        let full : Bytes = sig ++ vk_to_bytes signer.verifying_key in
        let size : length full ≡ 96 = omega (
          arith,
          length-append sig (vk_to_bytes signer.verifying_key),
          h.key,
          sign-length signer m sig h.signature signed,
        ) in
        let few : length w.roots % 256 ≡ length w.roots = omega (arith, h.count) in
        let placed =
          arranged_lem w.world_type w.id w.timestamp (length w.roots % 256) (own_keys signer) full
            (behind_count w keys) h.id h.timestamp
            (length-canonical_key_set (some (vk_to_bytes signer.verifying_key))) size in
        let bytes : Bytes =
          arranged w.world_type w.id w.timestamp (own_keys signer) full (length w.roots % 256)
            (behind_count w keys) in
        let roots : parse_roots utf8 decimal true (length w.roots % 256) (behind_count w keys)
            ≡ ok (map (read_root utf8 decimal ips ports) w.roots, be_bytes 2 0) =
          ap (λ n. parse_roots utf8 decimal true n (behind_count w keys)) few
          ∙ roots_lem utf8 decimal ips ports 0 w.roots keys (be_bytes 2 0) h.roots in
        (
          sig,
          signed,
          ap (parse_binary utf8 decimal) (shape ∙ arranged_body w signer keys full)
              ∙ parse_with_header utf8 decimal bytes (behind_count w keys) (be_bytes 2 0) full
                  w.world_type w.id w.timestamp (length w.roots % 256)
                  (map (read_root utf8 decimal ips ports) w.roots) placed
                  (omega (arith, few, h.count)) roots,
        )
