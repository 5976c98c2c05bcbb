-- ===== src/Net.antt =====
-- Byte order and socket addresses, as the program uses them of Rust's standard library:
-- `uN::from_be_bytes`, `uN::to_be_bytes`, `Ipv4Addr`, `Ipv6Addr` and `SocketAddr`.
pub mod Laws
pub mod Parser
use ferroada.Prelude.{
  ℕ, zero, suc, ◌+◌, ◌*◌, ◌/◌, ◌%◌, ◌^◌, ◌<◌, List, [], ◌∷◌, ◌++◌, Bool, ◌≡◌, ◌==◌, true, false,
  ◌↔◌, arith, ==_iff, ◌&&◌,
}
use ferroada.DashMap.{Eq}

-- `from_be_bytes`: the first byte is the most significant.
be_from : ℕ → List ℕ → ℕ
be_from acc [] = acc
be_from acc (b ∷ bs) = be_from (acc * 256 + b) bs

unfoldable pub from_be_bytes : List ℕ → ℕ
unfolding be_from
from_be_bytes bs = be_from 0 bs

-- `to_be_bytes` of a number of `n` bytes.
unfoldable pub to_be_bytes : ℕ → ℕ → List ℕ
to_be_bytes zero x = []
to_be_bytes (suc n) x = to_be_bytes n (x / 256) ++ (x % 256) ∷ []

-- `IpAddr`, by `u32::from` and `u128::from`.
pub data IpAddr : Type 0 where
  v4 v6 : ℕ → IpAddr

abbrev pub same_ip : IpAddr → IpAddr → Bool
same_ip (v4 a) (v4 b) = a == b
same_ip (v6 a) (v6 b) = a == b
same_ip _ _ = false

pub same_ip_iff : (a b : IpAddr) → (same_ip a b ≡ true) ↔ (a ≡ b)
same_ip_iff (v4 a) (v4 b) = ground (arith, ==_iff a b)
same_ip_iff (v6 a) (v6 b) = ground (arith, ==_iff a b)
same_ip_iff (v4 a) (v6 b) = ground arith
same_ip_iff (v6 a) (v4 b) = ground arith

-- `SocketAddr`: address and port, and of a V6 one the flow label and the scope id.
pub data SocketAddr : Type 0 where
  v4 : ℕ → ℕ → SocketAddr
  v6 : ℕ → ℕ → ℕ → ℕ → SocketAddr

instance abbrev pub ip_eq : Eq IpAddr
ip_eq = record { beq = same_ip; beq_iff = same_ip_iff }

abbrev pub same_addr : SocketAddr → SocketAddr → Bool
same_addr (SocketAddr.v4 a p) (SocketAddr.v4 b q) = a == b && p == q
same_addr (SocketAddr.v6 a p f s) (SocketAddr.v6 b q g t) = a == b && p == q && f == g && s == t
same_addr _ _ = false

pub same_addr_iff : (a b : SocketAddr) → (same_addr a b ≡ true) ↔ (a ≡ b)
same_addr_iff (SocketAddr.v4 a p) (SocketAddr.v4 b q) = ground (arith, ==_iff a b, ==_iff p q)
same_addr_iff (SocketAddr.v6 a p f s) (SocketAddr.v6 b q g t) =
    ground (arith, ==_iff a b, ==_iff p q, ==_iff f g, ==_iff s t)
same_addr_iff (SocketAddr.v4 a p) (SocketAddr.v6 b q g t) = ground arith
same_addr_iff (SocketAddr.v6 a p f s) (SocketAddr.v4 b q) = ground arith

instance abbrev pub addr_eq : Eq SocketAddr
addr_eq = record { beq = same_addr; beq_iff = same_addr_iff }

abbrev pub IsByte : ℕ → Type 0
IsByte b = b < 256

-- The values that fit the fields' widths.
abbrev pub FitsAddr : SocketAddr → Type 0
FitsAddr (SocketAddr.v4 ip port) = (ip < 256 ^ 4) × (port < 256 ^ 2)
FitsAddr (SocketAddr.v6 ip port flow scope) = (ip < 256 ^ 16) × (port < 256 ^ 2)
