-- ===== src/ClientIp/Network.antt =====
-- The networks of trusted proxies in src/client_ip.rs: an address and a mask, for the two widths of
-- addresses. A shift to the left is a product, and drops what leaves the width.
pub mod Prefix
pub mod Entry
use Prim.Native.Nat.{bit_and}
use ferroada.Prelude.{
  ℕ, ◌-◌, ◌*◌, ◌%◌, ◌^◌, ltb, ◌==◌, Bool, false, Option, none, some, Result, ok, err, ◌>>=◌,
  if◌then◌else◌,
}
use ferroada.Text.{Text, split_once}
use ferroada.RoutePath.{◌>>?◌}
use ferroada.Net.{IpAddr}
use ferroada.Net.Parser.{parse_ip_addr}
use ferroada.Grpc.DeadlineText.{parse_u64}

-- `network` and `mask`.
pub data IpNetwork : Type 0 where
  v4 v6 : ℕ → ℕ → IpNetwork

pub data NetworkError : Type 0 where
  invalid_ip invalid_prefix : Text → NetworkError

unfoldable pub network_contains : IpNetwork → IpAddr → Bool
network_contains (IpNetwork.v4 network mask) (IpAddr.v4 ip) = bit_and ip mask == network
network_contains (IpNetwork.v6 network mask) (IpAddr.v6 ip) = bit_and ip mask == network
network_contains _ _ = false

-- `parse::<u8>()`
unfoldable pub parse_u8 : Text → Option ℕ
parse_u8 t = parse_u64 t >>? λ n. if ltb n 256 then some n else none

unfoldable pub parse_prefix : Option Text → ℕ → Text → Result NetworkError ℕ
unfolding parse_u8
parse_prefix none max value = ok max
parse_prefix (some prefix) max value = elim (parse_u8 prefix) [
  | none ↦ err (NetworkError.invalid_prefix value)
  | some n ↦ if ltb max n then err (NetworkError.invalid_prefix value) else ok n
]

-- `uN::MAX << (N - prefix)`, at the width `w`.
unfoldable pub prefix_mask : ℕ → ℕ → ℕ
prefix_mask w prefix = if prefix == 0 then 0 else ((2 ^ w - 1) * 2 ^ (w - prefix)) % 2 ^ w

abbrev pub prefix_mask_v4 : ℕ → ℕ
unfolding prefix_mask
prefix_mask_v4 prefix = prefix_mask 32 prefix

abbrev pub prefix_mask_v6 : ℕ → ℕ
unfolding prefix_mask
prefix_mask_v6 prefix = prefix_mask 128 prefix

unfoldable pub network_of : IpAddr → Option Text → Text → Result NetworkError IpNetwork
unfolding parse_prefix prefix_mask
network_of (IpAddr.v4 ip) prefix value = parse_prefix prefix 32 value >>= λ n.
    ok (IpNetwork.v4 (bit_and ip (prefix_mask_v4 n)) (prefix_mask_v4 n))
network_of (IpAddr.v6 ip) prefix value = parse_prefix prefix 128 value >>= λ n.
    ok (IpNetwork.v6 (bit_and ip (prefix_mask_v6 n)) (prefix_mask_v6 n))

-- The address and the prefix of an entry.
unfoldable pub split_entry : Text → Text × Option Text
split_entry value = elim (split_once b'/' value) [
  | none ↦ (value, none)
  | some (ip, prefix) ↦ (ip, some prefix)
]

unfoldable pub parse_network : Text → Result NetworkError IpNetwork
unfolding network_of split_entry
parse_network value = elim (parse_ip_addr (split_entry value).0) [
  | none ↦ err (NetworkError.invalid_ip value)
  | some ip ↦ network_of ip (split_entry value).1 value
]
