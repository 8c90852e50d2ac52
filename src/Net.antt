-- ===== src/Net.antt =====
-- Socket addresses (`std::net`): an IP address as a number with its family, and a port. The flow label
-- and the scope of an IPv6 socket address are not modelled.
use zgalaxy_rs.Prelude.{ℕ, ◌≡◌, ◌↔◌, Bool, true, false, ◌&&◌, arith, HasEq, nat_beq}

pub data IpAddr : Type 0 where
  v4 : ℕ → IpAddr
  v6 : ℕ → IpAddr

abbrev pub ip_beq : IpAddr → IpAddr → Bool
ip_beq (v4 a) (v4 b) = nat_beq a b
ip_beq (v4 a) (v6 b) = false
ip_beq (v6 a) (v4 b) = false
ip_beq (v6 a) (v6 b) = nat_beq a b

ip_beq_iff : (a b : IpAddr) → (ip_beq a b ≡ true) ↔ (a ≡ b)
ip_beq_iff (v4 a) (v4 b) = ground arith
ip_beq_iff (v4 a) (v6 b) = ground arith
ip_beq_iff (v6 a) (v4 b) = ground arith
ip_beq_iff (v6 a) (v6 b) = ground arith

pub record SocketAddr : Type 0 where
  pub ip : IpAddr
  pub port : ℕ

abbrev pub socket_beq : SocketAddr → SocketAddr → Bool
socket_beq a b = ip_beq a.ip b.ip && nat_beq a.port b.port

pub socket_beq_iff : (a b : SocketAddr) → (socket_beq a b ≡ true) ↔ (a ≡ b)
socket_beq_iff a b = ground (arith, ip_beq_iff a.ip b.ip)

instance abbrev pub socket_eq : HasEq SocketAddr
socket_eq = record { test = socket_beq; test_iff = socket_beq_iff }

-- `SocketAddr::is_ipv6`.
abbrev pub is_ipv6 : SocketAddr → Bool
is_ipv6 s = elim (s.ip) [ v4 _ ↦ false | v6 _ ↦ true ]
