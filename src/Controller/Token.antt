-- ===== src/Controller/Token.antt =====
-- src/controller.rs: the membership tokens. The base64 and serde_json crates are parameters, the
-- signature is that of the controller's identity, and the clock is an argument.
use zgalaxy_rs.Prelude.{
  ℕ, ◌+◌, ◌≡◌, ◌≤◌, Bool, true, false, not, ◌&&◌, ◌||◌, Option, none, some, List, [], ◌∷◌, ◌++◌,
  length, nat_beq, ltb, list_beq, list_beq_iff, nat_eq, list_eq, if◌then◌else◌, Option-cases,
  Bool-cases, inl, inr, refl, arith, some_inj, subst, ◌∙◌, ap,
}
use zgalaxy_rs.Prelude.Bytes.{Bytes}
use zgalaxy_rs.Prelude.Text.{Text, codes}
use zgalaxy_rs.Json.{Json}
use zgalaxy_rs.Prelude.Outcome.{ok}
use zgalaxy_rs.Identity.Keys
use zgalaxy_rs.Identity.Keys.{SignCrate, Identity, split}
use zgalaxy_rs.Controller.Types.{Controller}
use zgalaxy_rs.Controller.Members.{get_network, get_member}

-- `URL_SAFE_NO_PAD`, `json!` on an object, `to_vec` and `from_slice`, and the identity that the
-- controller is made with.
pub record TokenCrates (json : Json) : Type 1 where
  pub b64url : Bytes → Text
  pub b64url_decode : Text → Option Bytes
  pub of_entries : List (Text × json.Value) → json.Value
  pub to_vec : json.Value → Option Bytes
  pub from_slice : Bytes → Option json.Value
  pub crypto : SignCrate
  pub identity : Identity crypto

abbrev pub membership_token_ttl_secs : ℕ
membership_token_ttl_secs = 3600

module _ (json : Json) (crates : TokenCrates json) where
  open json use {Value, get, as_u64, as_str, of_text, of_nat}
  open crates use {b64url, b64url_decode, of_entries, to_vec, from_slice, crypto, identity}

  unfoldable pub token_payload : Text → Text → ℕ → ℕ → Text → Value
  token_payload nwid member_id rev iat address = of_entries (
      (codes "n", of_text nwid)
      ∷ (codes "m", of_text member_id)
      ∷ (codes "r", of_nat rev)
      ∷ (codes "t", of_nat iat)
      ∷ (codes "e", of_nat (iat + membership_token_ttl_secs))
      ∷ (codes "c", of_text address)
      ∷ [])

  unfoldable pub signed_token : Value → Option Text
  unfolding Keys.sign
  signed_token payload = elim (to_vec payload) [
    | none ↦ none
    | some body ↦ elim (Keys.sign crypto identity body) [
      | ok sig ↦ some (b64url body ++ (b'.' ∷ b64url sig))
      | _ ↦ none
    ]
  ]

  unfoldable pub issue_membership_token : Controller Value → Text → Text → ℕ → Option Text
  unfolding signed_token token_payload get_member get_network
  issue_membership_token c nwid member_id iat = elim (get_member c nwid member_id) [
    | none ↦ none
    | some member ↦
        if member.authorized
        then elim (get_network c nwid) [
          | none ↦ none
          | some net ↦
              signed_token (token_payload nwid member_id net.revision iat c.controller_address)
        ]
        else none
  ]

  abbrev pub field_u64 : Value → Text → Option ℕ
  field_u64 payload k = elim (get payload k) [ none ↦ none | some v ↦ as_u64 v ]

  abbrev pub field_str : Value → Text → Option Text
  field_str payload k = elim (get payload k) [ none ↦ none | some v ↦ as_str v ]

  -- `payload.get(k).and_then(|v| v.as_str())? != expected` refuses, as does a missing text.
  abbrev pub claims_text : Value → Text → Text → Bool
  claims_text payload k expected = elim (field_str payload k) [
    | none ↦ false
    | some t ↦ list_beq t expected
  ]

  -- `now > exp || iat > exp` refuses, as does a missing number.
  abbrev pub is_current : Value → ℕ → Bool
  is_current payload now = elim (field_u64 payload (codes "e")) [
    | none ↦ false
    | some exp ↦ elim (field_u64 payload (codes "t")) [
      | none ↦ false
      | some iat ↦ not (ltb exp now || ltb exp iat)
    ]
  ]

  unfoldable pub checked_payload : Controller Value → Value → Text → Text → ℕ → Option Value
  checked_payload c payload nwid member_id now =
      if is_current payload now
        && (claims_text payload (codes "n") nwid
            && (claims_text payload (codes "m") member_id
                && claims_text payload (codes "c") c.controller_address))
      then some payload
      else none

  -- The two parts of a token, decoded.
  unfoldable pub decoded_parts : Text → Option (Bytes × Bytes)
  unfolding split
  decoded_parts token = elim (split b'.' token) [
    | body ∷ sig ∷ [] ↦ elim (b64url_decode body) [
      | none ↦ none
      | some body_b ↦ elim (b64url_decode sig) [
        | none ↦ none
        | some sig_b ↦ if nat_beq (length sig_b) 64 then some (body_b, sig_b) else none
      ]
    ]
    | _ ↦ none
  ]

  unfoldable pub verify_membership_token : Controller Value → Text → Text → Text → ℕ → Option Value
  unfolding decoded_parts checked_payload Keys.verify
  verify_membership_token c token nwid member_id now = elim (decoded_parts token) [
    | none ↦ none
    | some (body, sig) ↦
        if Keys.verify crypto identity body sig
        then elim (from_slice body) [
          | none ↦ none
          | some payload ↦ checked_payload c payload nwid member_id now
        ]
        else none
  ]

  -- What a payload says that is accepted.
  pub record IsAccepted (c : Controller Value) (token nwid member_id : Text) (now : ℕ)
      (payload : Value) : Type 0 where
    pub body : Bytes
    pub sig : Bytes
    pub parts : decoded_parts token ≡ some (body, sig)
    pub signed : Keys.verify crypto identity body sig ≡ true
    pub read : from_slice body ≡ some payload
    pub expires : ℕ
    pub issued : ℕ
    pub expires_at : field_u64 payload (codes "e") ≡ some expires
    pub issued_at : field_u64 payload (codes "t") ≡ some issued
    pub fresh : now ≤ expires
    pub ordered : issued ≤ expires
    pub network : field_str payload (codes "n") ≡ some nwid
    pub member : field_str payload (codes "m") ≡ some member_id
    pub issuer : field_str payload (codes "c") ≡ some c.controller_address

  claims_text-field_str :
      (payload : Value) (k expected : Text)
      → claims_text payload k expected ≡ true
      → field_str payload k ≡ some expected
  claims_text-field_str payload k expected h = elim (Option-cases (field_str payload k)) [
    | inl e ↦ absurd (ground arith)
    | inr (t, e) ↦ ground (arith, list_beq_iff t expected)
  ]

  checked_payload-some :
      (c : Controller Value) (payload p : Value) (nwid member_id : Text) (now : ℕ)
      → checked_payload c payload nwid member_id now ≡ some p
      → (payload ≡ p)
        × (is_current p now ≡ true)
        × (claims_text p (codes "n") nwid ≡ true)
        × (claims_text p (codes "m") member_id ≡ true)
        × (claims_text p (codes "c") c.controller_address ≡ true)
  unfolding checked_payload
  checked_payload-some c payload p nwid member_id now h =
      go (is_current payload now) (claims_text payload (codes "n") nwid)
        (claims_text payload (codes "m") member_id)
        (claims_text payload (codes "c") c.controller_address) refl refl refl refl h
    where
      go :
          (a b d e : Bool)
          → is_current payload now ≡ a
          → claims_text payload (codes "n") nwid ≡ b
          → claims_text payload (codes "m") member_id ≡ d
          → claims_text payload (codes "c") c.controller_address ≡ e
          → (if a && (b && (d && e)) then some payload else none) ≡ some p
          → (payload ≡ p)
            × (is_current p now ≡ true)
            × (claims_text p (codes "n") nwid ≡ true)
            × (claims_text p (codes "m") member_id ≡ true)
            × (claims_text p (codes "c") c.controller_address ≡ true)
      go true true true true i j k l taken =
          let same : payload ≡ p = some_inj taken in
          (
            same,
            subst (λ q. is_current q now ≡ true) same i,
            subst (λ q. claims_text q (codes "n") nwid ≡ true) same j,
            subst (λ q. claims_text q (codes "m") member_id ≡ true) same k,
            subst (λ q. claims_text q (codes "c") c.controller_address ≡ true) same l,
          )
      go false b d e i j k l taken = cc
      go true false d e i j k l taken = cc
      go true true false e i j k l taken = cc
      go true true true false i j k l taken = cc

  is_current-times :
      (p : Value) (now : ℕ)
      → is_current p now ≡ true
      → (expires : ℕ) × (issued : ℕ) × (field_u64 p (codes "e") ≡ some expires)
        × (field_u64 p (codes "t") ≡ some issued)
        × (now ≤ expires)
        × (issued ≤ expires)
  is_current-times p now h = elim (Option-cases (field_u64 p (codes "e"))) [
    | inl e ↦ absurd (ground arith)
    | inr (x, e) ↦ elim (Option-cases (field_u64 p (codes "t"))) [
      | inl f ↦ absurd (ground arith)
      | inr (i, f) ↦ (x, i, e, f, ground arith, ground arith)
    ]
  ]

  -- A token that is accepted carries a signature that verifies over its body, and the body says that
  -- it is for this network, this member and this controller, and not out of date.
  pub verify_membership_token-IsAccepted :
      (c : Controller Value) (token nwid member_id : Text) (now : ℕ) (payload : Value)
      → verify_membership_token c token nwid member_id now ≡ some payload
      → IsAccepted c token nwid member_id now payload
  unfolding verify_membership_token
  verify_membership_token-IsAccepted c token nwid member_id now payload h =
      elim (Option-cases (decoded_parts token)) [
        | inl e ↦ absurd (ground arith)
        | inr ((body, sig), e) ↦ elim (Bool-cases (Keys.verify crypto identity body sig)) [
          | inr v ↦ absurd (ground arith)
          | inl v ↦ elim (Option-cases (from_slice body)) [
            | inl r ↦ absurd (ground arith)
            | inr (p, r) ↦
                let (same, current, n, m, a) =
                  checked_payload-some c p payload nwid member_id now (ground arith) in
                let (expires, issued, x, t, fresh, ordered) =
                  is_current-times payload now current in
                record {
                  body = body;
                  sig = sig;
                  parts = e;
                  signed = v;
                  read = r ∙ ap some same;
                  expires = expires;
                  issued = issued;
                  expires_at = x;
                  issued_at = t;
                  fresh = fresh;
                  ordered = ordered;
                  network = claims_text-field_str payload (codes "n") nwid n;
                  member = claims_text-field_str payload (codes "m") member_id m;
                  issuer = claims_text-field_str payload (codes "c") c.controller_address a;
                }
          ]
        ]
      ]
