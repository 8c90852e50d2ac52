-- ===== src/Tests/Crates.antt =====
-- Concrete functions for the interfaces of the code that is not in the repository.
use zgalaxy_rs.Prelude.{
  ℕ, ◌+◌, ◌*◌, ◌/◌, ◌%◌, ◌^◌, ◌≡◌, ◌<◌, refl, sym, ap, ◌∙◌, Bool, true, false, Option, none, some,
  [], ◌∷◌, ◌++◌, length, take, drop, map, nat_eq, list_eq, ltb, lt→ltb, if◌then◌else◌, arith, ◌==◌,
  Option-cases, inl, inr, take-exact, drop-exact, length-append,
}
use zgalaxy_rs.Prelude.Bytes.{
  Bytes, IsBytes, be_bytes, of_be_bytes, of_be_bytes-be_bytes, length-be_bytes, be_bytes-IsBytes,
}
use zgalaxy_rs.Prelude.Text.{
  Text, contains_char, starts_with, to_lowercase, hex_digit, hex_byte, hex_encode,
}
use zgalaxy_rs.Prelude.Text.Laws.{IsLowerHex, hex_encode-IsLowerHex}
use zgalaxy_rs.Prelude.Outcome.{ok, panic}
use zgalaxy_rs.Prelude.Dict
use zgalaxy_rs.Prelude.Dict.{Dict}
use zgalaxy_rs.Json.{Json}
use zgalaxy_rs.Net.{v4, v6}
use zgalaxy_rs.Packet.Buf.{BytesCrate, Read}
use zgalaxy_rs.Identity.Address.Display.{HexCrate}
use zgalaxy_rs.Peer.{Printer}
use zgalaxy_rs.Controller.IpText.{IpText}
use zgalaxy_rs.Controller.Plane.{hex_value}
use zgalaxy_rs.Controller.Plane.Opaque.{Hmac}
use zgalaxy_rs.Network.Types.{Sha256, Network}
use zgalaxy_rs.Network.Disk.{NetworkText}

abbrev read_u64 : Read ℕ
read_u64 bs = if ltb (length bs) 8 then panic else ok (of_be_bytes (take 8 bs), drop 8 bs)

abbrev read_slice : ℕ → Read Bytes
read_slice n bs = if ltb (length bs) n then panic else ok (take n bs, drop n bs)

pub get_u64-exact :
    (bs rest : Bytes) → length bs ≡ 8 → read_u64 (bs ++ rest) ≡ ok (of_be_bytes bs, rest)
get_u64-exact bs rest h =
    ground (arith, take-exact 8 bs rest h, drop-exact 8 bs rest h, length-append bs rest)

pub copy_to_slice-exact :
    (n : ℕ) (bs rest : Bytes) → length bs ≡ n → read_slice n (bs ++ rest) ≡ ok (bs, rest)
copy_to_slice-exact n bs rest h =
    ground (arith, take-exact n bs rest h, drop-exact n bs rest h, length-append bs rest)

abbrev pub bytes_crate : BytesCrate
bytes_crate = record {
  put_u64 = λ buf v. buf ++ be_bytes 8 v;
  put_u8 = λ buf v. buf ++ v ∷ [];
  put_slice = λ buf bs. buf ++ bs;
  get_u64 = read_u64;
  get_u8 = λ bs. elim bs [ [] ↦ panic | b ∷ rest ↦ ok (b, rest) ];
  copy_to_slice = read_slice;
  put_u64_lem = λ buf v. refl;
  put_u8_lem = λ buf v. refl;
  put_slice_lem = λ buf bs. refl;
  get_u64_lem = get_u64-exact;
  get_u8_lem = λ b rest. refl;
  copy_to_slice_lem = copy_to_slice-exact;
}

abbrev pair_value : Option ℕ → Option ℕ → Option Bytes → Option Bytes
pair_value none y rest = none
pair_value (some x) none rest = none
pair_value (some x) (some y) none = none
pair_value (some x) (some y) (some bs) = some ((16 * x + y) ∷ bs)

-- Hexadecimal text, then `end`.
abbrev decode_to : Text → Text → Option Bytes
decode_to end [] = if [] == end then some [] else none
decode_to end (c ∷ []) = if (c ∷ []) == end then some [] else none
decode_to end (c ∷ d ∷ t) = pair_value (hex_value c) (hex_value d) (decode_to end t)

hex_value-hex_digit : (d : ℕ) → d < 16 → hex_value (hex_digit d) ≡ some d
hex_value-hex_digit d h = ground arith

pub decode_to-hex_encode : (bs : Bytes) → IsBytes bs → decode_to [] (hex_encode bs) ≡ some bs
unfolding hex_encode hex_byte
decode_to-hex_encode [] h = refl
decode_to-hex_encode (b ∷ bs) h = ground (
  arith,
  hex_value-hex_digit (b / 16) (omega (arith, h.0)),
  hex_value-hex_digit (b % 16) (omega arith),
  decode_to-hex_encode bs h.1,
)

pub decode_colon-hex_encode :
    (bs : Bytes) → IsBytes bs → decode_to (b':' ∷ []) (hex_encode bs ++ b':' ∷ []) ≡ some bs
unfolding hex_encode hex_byte
decode_colon-hex_encode [] h = refl
decode_colon-hex_encode (b ∷ bs) h = ground (
  arith,
  hex_value-hex_digit (b / 16) (omega (arith, h.0)),
  hex_value-hex_digit (b % 16) (omega arith),
  decode_colon-hex_encode bs h.1,
)

pub decode_to-length : (t : Text) (bs : Bytes) → decode_to [] t ≡ some bs → length t ≡ 2 * length bs
decode_to-length [] bs h = ground arith
decode_to-length (c ∷ []) bs h = ground arith
decode_to-length (c ∷ d ∷ t) bs h = elim (Option-cases (decode_to [] t)) [
  | inl e ↦ ground arith
  | inr (rest, e) ↦ ground (arith, decode_to-length t rest e)
]

abbrev pub hex_crate : HexCrate
hex_crate = record {
  decode = decode_to [];
  decode_encode = decode_to-hex_encode;
  decode_length = decode_to-length;
}

-- Addresses in hexadecimal, an IPv6 address with a colon at its end.
abbrev bounded : ℕ → Option Bytes → Option ℕ
bounded limit none = none
bounded limit (some bs) = if ltb (of_be_bytes bs) limit then some (of_be_bytes bs) else none

pub bounded-range : (limit : ℕ) (o : Option Bytes) (a : ℕ) → bounded limit o ≡ some a → a < limit
bounded-range limit none a h = ground arith
bounded-range limit (some bs) a h = ground arith

pub bounded-be_bytes :
    (n limit a : ℕ) → a < limit → a < 256 ^ n → bounded limit (some (be_bytes n a)) ≡ some a
bounded-be_bytes n limit a h k = rw (of_be_bytes-be_bytes n a k, lt→ltb a limit h) refl

pub no_colon : (t : Text) → IsLowerHex t → contains_char t b':' ≡ false
no_colon [] h = refl
no_colon (c ∷ t) h = ground (arith, no_colon t h.1)

pub colon_last : (t : Text) → contains_char (t ++ b':' ∷ []) b':' ≡ true
colon_last [] = refl
colon_last (c ∷ t) = ground (arith, colon_last t)

abbrev octets : ℕ → Bytes
octets a = (a / 2 ^ 120) ∷ be_bytes 15 (a % 2 ^ 120)

pub octets-IsBytes : (a : ℕ) → a < 2 ^ 128 → IsBytes (octets a)
octets-IsBytes a h = (omega arith, be_bytes-IsBytes 15 (a % 2 ^ 120))

-- `of_be_bytes` of a byte in front of fifteen.
abbrev number_of : Option Bytes → Option ℕ
number_of none = none
number_of (some []) = none
number_of (some (b ∷ bs)) =
    let v = b * 2 ^ 120 + of_be_bytes bs in if ltb v (2 ^ 128) then some v else none

pub number_of-range : (o : Option Bytes) (a : ℕ) → number_of o ≡ some a → a < 2 ^ 128
number_of-range none a h = ground arith
number_of-range (some []) a h = ground arith
number_of-range (some (b ∷ bs)) a h = ground arith

pub number_of-octets : (a : ℕ) → a < 2 ^ 128 → number_of (some (octets a)) ≡ some a
number_of-octets a h = rw (of_be_bytes-be_bytes 15 (a % 2 ^ 120) (omega arith)) (
    let whole : a / 2 ^ 120 * 2 ^ 120 + a % 2 ^ 120 ≡ a = omega arith in
    rw (whole, lt→ltb a (2 ^ 128) h) refl)

pub octets-fc :
    (a : ℕ)
    → a / 2 ^ 120 ≡ 0xfc
    → starts_with (to_lowercase (hex_encode (octets a) ++ b':' ∷ [])) (b'f' ∷ b'c' ∷ []) ≡ true
unfolding hex_encode hex_byte
octets-fc a h = rw h refl

pub octets-fd :
    (a : ℕ)
    → a / 2 ^ 120 ≡ 0xfd
    → starts_with (to_lowercase (hex_encode (octets a) ++ b':' ∷ [])) (b'f' ∷ b'd' ∷ []) ≡ true
unfolding hex_encode hex_byte
octets-fd a h = rw h refl

abbrev pub ip_text : IpText
ip_text = record {
  v4_text = λ a. hex_encode (be_bytes 4 a);
  v4_parse = λ t. bounded (2 ^ 32) (decode_to [] t);
  v6_text = λ a. hex_encode (octets a) ++ b':' ∷ [];
  v6_parse = λ t. number_of (decode_to (b':' ∷ []) t);
  v4_parse_text = λ a h.
      ap (bounded (2 ^ 32)) (decode_to-hex_encode (be_bytes 4 a) (be_bytes-IsBytes 4 a))
      ∙ bounded-be_bytes 4 (2 ^ 32) a h h;
  v6_parse_text = λ a h.
      ap number_of (decode_colon-hex_encode (octets a) (octets-IsBytes a h)) ∙ number_of-octets a h;
  v4_parse_range = λ t a h. bounded-range (2 ^ 32) (decode_to [] t) a h;
  v6_parse_range = λ t a h. number_of-range (decode_to (b':' ∷ []) t) a h;
  v4_text_colon = λ a.
      no_colon (hex_encode (be_bytes 4 a))
        (hex_encode-IsLowerHex (be_bytes 4 a) (be_bytes-IsBytes 4 a));
  v6_text_colon = λ a. colon_last (hex_encode (octets a));
  v6_text_fc = octets-fc;
  v6_text_fd = octets-fd;
}

-- A value without nested objects.
pub data Scalar : Type 0 where
  null object : Scalar
  flag : Bool → Scalar
  number : ℕ → Scalar
  text : Text → Scalar

abbrev pub Value : Type 0
Value = Scalar × Dict Text Scalar

abbrev plain : Option Scalar → Option Value
plain none = none
plain (some s) = some (s, [])

abbrev set : Value → Text → Value → Option Value
set (null, d) k (s, []) = some (object, Dict.insert d k s)
set (object, d) k (s, []) = some (object, Dict.insert d k s)
set v k w = none

pub get-set_value :
    (v v' : Value) (k : Text) (w : Value) (j : Text)
    → set v k w ≡ some v'
    → plain (Dict.get v'.1 j) ≡ (if k == j then some w else plain (Dict.get v.1 j))
get-set_value (null, d) v' k (s, []) j h = ground (arith, Dict.get-insert d k s j)
get-set_value (null, d) v' k (s, (e ∷ es)) j h = ground arith
get-set_value (object, d) v' k (s, []) j h = ground (arith, Dict.get-insert d k s j)
get-set_value (object, d) v' k (s, (e ∷ es)) j h = ground arith
get-set_value (flag b, d) v' k w j h = ground arith
get-set_value (number n, d) v' k w j h = ground arith
get-set_value (text t, d) v' k w j h = ground arith

abbrev pub json : Json
json = record {
  Value = Value;
  get = λ v k. plain (Dict.get v.1 k);
  as_bool = λ v. elim (v.0) [ flag b ↦ some b | _ ↦ none ];
  as_u64 = λ v. elim (v.0) [ number n ↦ some n | _ ↦ none ];
  as_str = λ v. elim (v.0) [ text t ↦ some t | _ ↦ none ];
  entries = λ v. elim (v.0) [ object ↦ some (map (λ e. (e.0, (e.1, []))) v.1) | _ ↦ none ];
  set = set;
  of_text = λ t. (text t, []);
  of_nat = λ n. (number n, []);
  as_str_of_text = λ t. refl;
  as_u64_of_nat = λ n. refl;
  get-set = get-set_value;
}

abbrev pub sum : Bytes → ℕ
sum [] = 0
sum (b ∷ bs) = b + sum bs

abbrev pub hmac : Hmac
hmac key message = be_bytes 32 (sum key * 65536 + sum message)

abbrev pub sha : Sha256
sha = record {
  digest = λ bs. be_bytes 32 (sum bs * 2 ^ 200);
  digest_length = λ bs. length-be_bytes 32 _;
  digest_bytes = λ bs. be_bytes-IsBytes 32 _;
}

abbrev pub printer : Printer
printer = record {
  ip_text =
      λ ip. elim ip [ v4 a ↦ hex_encode (be_bytes 4 a) | v6 a ↦ b':' ∷ hex_encode (be_bytes 16 a) ];
  decimal = λ n. hex_encode (be_bytes 2 n);
}

abbrev pub codec : NetworkText
codec = record {
  Content = Network;
  to_string_pretty = some;
  from_str = some;
  from_str-to_string = λ n t h. sym h;
}
