-- ===== src/Quic/Control.antt =====
-- src/quic.rs, `mod control` and `read_control_message`: the messages of the control streams and
-- their envelope, a length of four bytes in front of JSON. serde_json is a parameter.
use zgalaxy_rs.Prelude.{
  ℕ, ◌+◌, ◌*◌, ◌∷◌, [], ◌∙◌, ap, sym, ◌≡◌, ◌≤◌, ◌<◌, ◌^◌, ◌%◌, true, false, Option, none, some,
  ◌++◌, length, take, drop, ltb, if◌then◌else◌, arith, take-exact, drop-exact, length-append,
  length-take, take-append-drop, Bool-cases, take-append, drop-append, leb, Option-cases, inl, inr,
}
use mathlib.Core.List.{append_assoc}
use zgalaxy_rs.Prelude.Bytes.{
  Bytes, be_bytes, of_be_bytes, of_le_bytes, of_be_bytes-be_bytes, length-be_bytes,
}
use zgalaxy_rs.Prelude.Text.{Text}
use zgalaxy_rs.Prelude.Outcome.{Outcome, ok, err, ◌>>=◌, ◌>>◌, ensure}
use zgalaxy_rs.Quic.{AnnounceProof}

-- `V` is `serde_json::Value`.
pub data ControlMessage (V : Type 0) : Type 0 where
  node_announce : Text → Text → ControlMessage V
  node_challenge : ℕ → ControlMessage V
  announce_proof : AnnounceProof → ControlMessage V
  announce_accepted : Text → ControlMessage V
  network_config_request : Text → Option Text → ControlMessage V
  network_config_response : Text → V → ControlMessage V
  ping : ℕ → ℕ → ControlMessage V
  pong : ℕ → ℕ → ℕ → ControlMessage V

-- `serde_json` on control messages. What it writes it need not read back: a value that is nested too
-- deep, or has a float that is not printed exactly, does not.
pub record MessageJson (V : Type 0) : Type 0 where
  pub to_vec : ControlMessage V → Option Bytes
  pub from_slice : Bytes → Option (ControlMessage V)

pub data ControlError : Type 0 where
  bad_json too_short truncated header_failed body_failed : ControlError
  too_large : ℕ → ControlError

abbrev pub max_control_size : ℕ
max_control_size = 2 ^ 20

module _ {V : Type 0} (json : MessageJson V) where
  open json use {to_vec, from_slice}

  unfoldable pub encode : ControlMessage V → Outcome ControlError Bytes
  encode msg = elim (to_vec msg) [
    | none ↦ err bad_json
    | some body ↦ ok (be_bytes 4 (length body % 2 ^ 32) ++ body)
  ]

  unfoldable pub decode_body : Bytes → Outcome ControlError (ControlMessage V)
  decode_body body = elim (from_slice body) [ none ↦ err bad_json | some m ↦ ok m ]

  unfoldable pub decode : Bytes → Outcome ControlError (ControlMessage V)
  unfolding decode_body
  decode buf =
      let len = of_be_bytes (take 4 buf) in
      if ltb (length buf) 4
      then err too_short
      else if ltb (length buf) (4 + len)
      then err truncated
      else decode_body (take len (drop 4 buf))

  -- `recv.read_exact` into `n` bytes, on what the peer sends until the stream ends.
  unfoldable pub read_exact : ControlError → ℕ → Bytes → Outcome ControlError (Bytes × Bytes)
  read_exact e n stream = if ltb (length stream) n then err e else ok (take n stream, drop n stream)

  -- The message, and what is left of the stream.
  unfoldable pub read_control_message : Bytes → Outcome ControlError (ControlMessage V × Bytes)
  unfolding read_exact decode_body
  read_control_message recv = do
    (len_buf, body) ← read_exact header_failed 4 recv
    let len = of_be_bytes len_buf
    ensure (if ltb max_control_size len then false else true) (too_large len)
    (buf, rest) ← read_exact body_failed len body
    message ← decode_body buf
    ok (message, rest)

  framed : Bytes → Bytes → Bytes
  framed body rest = (be_bytes 4 (length body % 2 ^ 32) ++ body) ++ rest

  -- The parts of a framed body that is shorter than 2^32 bytes.
  record Framed (body rest : Bytes) : Type 0 where
    header : of_be_bytes (take 4 (framed body rest)) ≡ length body
    after : drop 4 (framed body rest) ≡ body ++ rest
    size : length (framed body rest) ≡ 4 + (length body + length rest)

  framed_lem : (body rest : Bytes) → length body < 2 ^ 32 → Framed body rest
  unfolding framed
  framed_lem body rest h =
      let head : Bytes = be_bytes 4 (length body % 2 ^ 32) in
      let four : length head ≡ 4 = length-be_bytes 4 (length body % 2 ^ 32) in
      let same : framed body rest ≡ head ++ (body ++ rest) = append_assoc head body rest in
      record {
        header =
            rw
              (
                same,
                take-exact 4 head (body ++ rest) four,
                of_be_bytes-be_bytes 4 (length body % 2 ^ 32) (omega arith),
              )
              (omega arith);
        after = rw same (drop-exact 4 head (body ++ rest) four);
        size =
            rw same
              (omega (arith, length-append head (body ++ rest), length-append body rest, four));
      }

  -- A message whose JSON reads back as the message, and is shorter than 2^32 bytes, decodes from its
  -- encoding, whatever follows it; and
  -- a stream that begins with the encoding is read as the message, with the rest of the stream left,
  -- where the JSON has at most 2^20 bytes, and is refused with the length stated where it has more.
  pub message-decode-encode :
      (m : ControlMessage V) (body : Bytes) (rest : Bytes)
      → to_vec m ≡ some body
      → from_slice body ≡ some m
      → length body < 2 ^ 32
      → (buf : Bytes) × (encode m ≡ ok buf)
        × (decode (buf ++ rest) ≡ ok m)
        × (read_control_message (buf ++ rest) ≡ (
            if leb (length body) max_control_size
            then ok (m, rest)
            else err (too_large (length body))))
  unfolding encode decode decode_body read_control_message read_exact framed
  message-decode-encode m body rest e back h =
      let parts : Framed body rest = framed_lem body rest h in
      let whole : take (length body) (body ++ rest) ≡ body = take-append body rest in
      let left : drop (length body) (body ++ rest) ≡ rest = drop-append body rest in
      let size : length (body ++ rest) ≡ length body + length rest = length-append body rest in
      (
        be_bytes 4 (length body % 2 ^ 32) ++ body,
        ground arith,
        ground (arith, parts.header, parts.after, parts.size),
        ground (arith, parts.header, parts.after, parts.size),
      )

  -- A message that is read has taken four bytes and as many more from the stream as these four state,
  -- the most significant first; they are at most 2^20, and it is they that decode to the message.
  pub read_control_message-bounded :
      (recv rest : Bytes) (m : ControlMessage V)
      → read_control_message recv ≡ ok (m, rest)
      → (a : ℕ) × (b : ℕ) × (c : ℕ) × (d : ℕ) × (body : Bytes) × (recv
          ≡ a ∷ b ∷ c ∷ d ∷ (body ++ rest))
        × (length body ≡ ((a * 256 + b) * 256 + c) * 256 + d)
        × (length body ≤ max_control_size)
        × (from_slice body ≡ some m)
  unfolding read_control_message read_exact decode_body of_be_bytes of_le_bytes
  read_control_message-bounded [] rest m h = absurd (ground arith)
  read_control_message-bounded (a ∷ []) rest m h = absurd (ground arith)
  read_control_message-bounded (a ∷ b ∷ []) rest m h = absurd (ground arith)
  read_control_message-bounded (a ∷ b ∷ c ∷ []) rest m h = absurd (ground arith)
  read_control_message-bounded (a ∷ b ∷ c ∷ d ∷ body) rest m h =
      let len : ℕ = of_be_bytes (a ∷ b ∷ c ∷ d ∷ []) in
      elim (Bool-cases (ltb max_control_size len)) [
        | inl f ↦ absurd (ground arith)
        | inr f ↦ elim (Bool-cases (ltb (length body) len)) [
          | inl g ↦ absurd (ground arith)
          | inr g ↦ elim (Option-cases (from_slice (take len body))) [
            | inl k ↦ absurd (ground arith)
            | inr (x, k) ↦
                let same : drop len body ≡ rest = ground arith in
                let whole : take len body ++ rest ≡ body =
                  ap (λ t. take len body ++ t) (sym same) ∙ take-append-drop len body in
                let size : length (take len body) ≡ len = ground (arith, length-take len body) in
                (
                  a,
                  b,
                  c,
                  d,
                  take len body,
                  ap (λ t. a ∷ b ∷ c ∷ d ∷ t) (sym whole),
                  omega (arith, size),
                  ground (arith, size),
                  ground arith,
                )
          ]
        ]
      ]
