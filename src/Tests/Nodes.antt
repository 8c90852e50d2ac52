-- ===== src/Tests/Nodes.antt =====
-- A signature scheme, an identity and a transport for the runs over sessions.
use zgalaxy_rs.Prelude.{
  ℕ, zero, suc, ◌%◌, ◌≡◌, refl, Bool, true, false, none, some, [], ◌∷◌, replicate, ◌==◌, ==-refl,
  bool_eq, Option, nat_beq, if◌then◌else◌, arith,
}
use zgalaxy_rs.Prelude.Bytes.{Bytes, IsByte, IsBytes}
use zgalaxy_rs.Prelude.Text.{Text, codes}
use zgalaxy_rs.Net.{SocketAddr, v4}
use zgalaxy_rs.Identity.Address.{of_slice}
use zgalaxy_rs.Identity.Keys.{SignCrate, Identity, from_public_key}
use zgalaxy_rs.Identity.Keys.Print.{IsPublic}
use zgalaxy_rs.Quic.Control.{ControlMessage, MessageJson, node_challenge}
use zgalaxy_rs.Daemon.{Crates}
use zgalaxy_rs.Daemon.Handshake.{SignLaws, IsOwn}
use zgalaxy_rs.Tests.Crates.{sum, json, Value, object, ip_text, hmac, printer, hex_crate}
use zgalaxy_rs.Tests.Keys.{token_crates}

-- The parity of the message against that of the key, as 64 equal bytes.
abbrev parity : Bytes → Bytes → Bool
parity key message = nat_beq (sum message % 2) (sum key % 2)

abbrev read_bit : Bytes → Bool
read_bit [] = false
read_bit (b ∷ bs) = nat_beq b 1

abbrev pub crypto : SignCrate
crypto = record {
  VerifyingKey = Bytes;
  SigningKey = Bytes;
  Signature = Bool;
  vk_from_bytes = some;
  vk_to_bytes = λ key. key;
  sk_from_bytes = λ key. key;
  sk_to_bytes = λ key. key;
  verifying_key_of = λ key. key;
  sign_with = parity;
  signature_bytes = λ s. replicate 64 (if s then 1 else 0);
  signature_from = λ bs. some (read_bit bs);
  verify_with = λ key message s. s == parity key message;
  sha512 = λ bs. replicate 64 7;
  sha512_length = λ bs. refl;
}

All-replicate : (n b : ℕ) → IsByte b → IsBytes (replicate n b)
All-replicate zero b h = tt
All-replicate (suc n) b h = (h, All-replicate n b h)

reads_back : (s : Bool) → read_bit (replicate 64 (if s then 1 else 0)) ≡ s
reads_back true = refl
reads_back false = refl

pub laws : SignLaws crypto
laws = record {
  verify_sign = λ sk m. ==-refl (parity sk m);
  from_bytes = λ s. ground (arith, reads_back s);
  size = λ s. refl;
  bytes = λ s. All-replicate 64 (if s then 1 else 0) (ground arith);
}

abbrev pub key : Bytes
key = replicate 32 0x2a

abbrev pub identity : Identity crypto
identity = record {
  address = record { b0 = 7; b1 = 7; b2 = 7; b3 = 7; b4 = 7 };
  verifying_key = key;
  signing_key = some key;
  raw_public_key = key;
}

pub identity-IsPublic : IsPublic crypto identity
unfolding from_public_key of_slice
identity-IsPublic = record {
  bytes = All-replicate 32 0x2a (omega arith);
  size = refl;
  read = refl;
  derived = refl;
  valid = record {
    byte0 = omega arith;
    byte1 = omega arith;
    byte2 = omega arith;
    byte3 = omega arith;
    byte4 = omega arith;
  };
}

pub identity-IsOwn : IsOwn crypto identity
identity-IsOwn = record { public = identity-IsPublic; key = key; secret = refl; pair = refl }

-- Challenges are one number, and other messages have no text.
abbrev to_vec : ControlMessage Value → Option Bytes
to_vec (node_challenge n) = some (n ∷ [])
to_vec _ = none

abbrev from_slice : Bytes → Option (ControlMessage Value)
from_slice (n ∷ []) = some (node_challenge n)
from_slice _ = none

abbrev pub messages : MessageJson Value
messages = record { to_vec = to_vec; from_slice = from_slice }

abbrev pub crates : Crates
crates = record {
  json = json;
  tokens = token_crates;
  messages = messages;
  response_json = λ r. (object, []);
  ips = ip_text;
  hmac = hmac;
  printer = printer;
  hex = hex_crate;
  crypto = crypto;
}

abbrev pub remote : SocketAddr
remote = record { ip = v4 0x0a000001; port = 9993 }

abbrev pub address : Text
address = codes "0707070707"

abbrev pub public_text : Text
public_text = codes "0707070707:0:2a2a2a2a2a2a2a2a2a2a2a2a2a2a2a2a2a2a2a2a2a2a2a2a2a2a2a2a2a2a2a2a"
