-- ===== src/SocketAddr.antt =====
-- include/net/socket_addr.hpp and lib/net/socket_addr.cc: `socket_addr_t`, an IPv4 address and a
-- port. The fields are in host order; `htonl` and `htons` turn them where they leave the class.
use p2p_live.Prelude.{ℕ, ◌%◌, ◌<◌, ◌≡◌, ◌↔◌, arith, Bool, true, ◌&&◌, ◌==◌, Eq, u16_mod, u32_mod}

-- `so_addr`: `sin_family`, `sin_addr.s_addr` and `sin_port`.
pub record SocketAddr : Type 0 where
  pub family : ℕ
  pub ip : ℕ
  pub port : ℕ

-- AF_INET
abbrev pub af_inet : ℕ
af_inet = 2

-- `socket_addr_t()`
abbrev pub invalid_addr : SocketAddr
invalid_addr = record { family = 0; ip = 0; port = 0 }

-- `socket_addr_t(u32 addr, int port)`
abbrev pub addr_of : ℕ → ℕ → SocketAddr
addr_of addr port = record { family = af_inet; ip = addr % u32_mod; port = port % u16_mod }

-- `socket_addr_t(int port)`: any address.
abbrev pub addr_of_port : ℕ → SocketAddr
addr_of_port port = addr_of 0 port

-- `operator==`
abbrev pub addr_eq : SocketAddr → SocketAddr → Bool
addr_eq a b = a.port == b.port && (a.family == b.family && a.ip == b.ip)

pub addr_eq_iff : (a b : SocketAddr) → (addr_eq a b ≡ true) ↔ (a ≡ b)
addr_eq_iff a b = ground arith

instance abbrev pub addr_eq_inst : Eq SocketAddr
addr_eq_inst = record { beq = addr_eq; beq_iff = addr_eq_iff }

-- A peer's address as `accept` and `recvfrom` give it.
pub record IsIpv4 (a : SocketAddr) : Type 0 where
  pub inet : a.family ≡ af_inet
  pub ip_fits : a.ip < u32_mod
  pub port_fits : a.port < u16_mod

pub addr_of_lem : (a : SocketAddr) → IsIpv4 a → addr_of a.ip a.port ≡ a
addr_of_lem a v = ground arith
