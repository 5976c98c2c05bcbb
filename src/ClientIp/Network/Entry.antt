-- ===== src/ClientIp/Network/Entry.antt =====
-- Which addresses an entry of `TRUSTED_PROXIES` holds, in src/client_ip.rs.
use Prim.Native.Nat.{bit_and}
use ferroada.Prelude.{
  ℕ, ◌-◌, ◌/◌, ◌^◌, ◌≤◌, ◌<◌, ◌≡◌, ◌↔◌, true, inl, inr, arith, ok, err, Option, none, some,
  Option-cases, Result-cases, subst,
}
use ferroada.Text.{Text}
use ferroada.Net.{IpAddr}
use ferroada.ClientIp.Network.{
  parse_prefix, network_of, network_contains, parse_u8, IpNetwork, prefix_mask, NetworkError,
}
use ferroada.ClientIp.Network.Prefix.{masked_iff}

abbrev pub FitsIp : IpAddr → Type 0
FitsIp (IpAddr.v4 a) = a < 2 ^ 32
FitsIp (IpAddr.v6 a) = a < 2 ^ 128

abbrev pub width : IpAddr → ℕ
width (IpAddr.v4 a) = 32
width (IpAddr.v6 a) = 128

-- The same family, and the same first `p` bits.
abbrev pub SharesPrefix : ℕ → IpAddr → IpAddr → Type 0
SharesPrefix p (IpAddr.v4 a) (IpAddr.v4 b) = a / 2 ^ (32 - p) ≡ b / 2 ^ (32 - p)
SharesPrefix p (IpAddr.v6 a) (IpAddr.v6 b) = a / 2 ^ (128 - p) ≡ b / 2 ^ (128 - p)
SharesPrefix p _ _ = ⊥

parse_prefix-le :
    (prefix : Option Text) (max : ℕ) (value : Text) (p : ℕ)
    → parse_prefix prefix max value ≡ ok p
    → p ≤ max
unfolding parse_prefix
parse_prefix-le none max value p h = ground (arith, h)
parse_prefix-le (some t) max value p h = elim (Option-cases (parse_u8 t)) [
  | inl bad ↦ absurd (ground (arith, h, bad))
  | inr (n, read) ↦ ground (arith, h, read)
]

made_iff :
    (own ip : IpAddr) (prefix : Option Text) (value : Text) (n : IpNetwork) (p : ℕ)
    → FitsIp own
    → FitsIp ip
    → parse_prefix prefix (width own) value ≡ ok p
    → p ≤ width own
    → network_of own prefix value ≡ ok n
    → (network_contains n ip ≡ true) ↔ SharesPrefix p ip own
unfolding network_of network_contains
made_iff (IpAddr.v4 a) (IpAddr.v4 b) prefix value n p fa fb e h m =
    let same : IpNetwork.v4 (bit_and a (prefix_mask 32 p)) (prefix_mask 32 p) ≡ n =
      ground (arith, e, m) in
    subst
      (λ net.
        (network_contains net (IpAddr.v4 b) ≡ true) ↔ SharesPrefix p (IpAddr.v4 b) (IpAddr.v4 a))
      same (masked_iff 32 p b a h fb fa)
made_iff (IpAddr.v6 a) (IpAddr.v6 b) prefix value n p fa fb e h m =
    let same : IpNetwork.v6 (bit_and a (prefix_mask 128 p)) (prefix_mask 128 p) ≡ n =
      ground (arith, e, m) in
    subst
      (λ net.
        (network_contains net (IpAddr.v6 b) ≡ true) ↔ SharesPrefix p (IpAddr.v6 b) (IpAddr.v6 a))
      same (masked_iff 128 p b a h fb fa)
made_iff (IpAddr.v4 a) (IpAddr.v6 b) prefix value n p fa fb e h m =
    let same : IpNetwork.v4 (bit_and a (prefix_mask 32 p)) (prefix_mask 32 p) ≡ n =
      ground (arith, e, m) in
    subst (λ net. (network_contains net (IpAddr.v6 b) ≡ true) ↔ ⊥) same (λ t. cc, λ t. absurd t)
made_iff (IpAddr.v6 a) (IpAddr.v4 b) prefix value n p fa fb e h m =
    let same : IpNetwork.v6 (bit_and a (prefix_mask 128 p)) (prefix_mask 128 p) ≡ n =
      ground (arith, e, m) in
    subst (λ net. (network_contains net (IpAddr.v4 b) ≡ true) ↔ ⊥) same (λ t. cc, λ t. absurd t)

network_of-err :
    (own : IpAddr) (prefix : Option Text) (value : Text) (e : NetworkError)
    → parse_prefix prefix (width own) value ≡ err e
    → network_of own prefix value ≡ err e
unfolding network_of
network_of-err (IpAddr.v4 a) prefix value e h = ground (arith, h)
network_of-err (IpAddr.v6 a) prefix value e h = ground (arith, h)

-- An entry that is accepted has a prefix of at most the width of its address, and the network it
-- becomes holds an address exactly when that is of the same family and begins with the same bits, as
-- many as the prefix says.
pub network_contains-network_of :
    (own ip : IpAddr) (prefix : Option Text) (value : Text) (n : IpNetwork)
    → FitsIp own
    → FitsIp ip
    → network_of own prefix value ≡ ok n
    → (p : ℕ) × (parse_prefix prefix (width own) value ≡ ok p)
      × (p ≤ width own)
      × ((network_contains n ip ≡ true) ↔ SharesPrefix p ip own)
network_contains-network_of own ip prefix value n fo fi m =
    elim (Result-cases (parse_prefix prefix (width own) value)) [
      | inl (e, bad) ↦ absurd (let c = network_of-err own prefix value e bad in cc)
      | inr (p, read) ↦
          let h = parse_prefix-le prefix (width own) value p read in
          (p, read, h, made_iff own ip prefix value n p fo fi read h m)
    ]
