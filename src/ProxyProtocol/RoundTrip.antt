-- ===== src/ProxyProtocol/RoundTrip.antt =====
-- A header that `encode_v2` writes is read back by `parse_v2`, whatever follows it.
use mathlib.Core.Path.{ap₂}
use ferroada.Prelude.{
  ℕ, ◌≡◌, List, ok, some, length, ok-injective, ◌++◌, take-length-append, ◌∙◌, sym,
  take-length_self,
}
use ferroada.Net.{SocketAddr, v4, v6, to_be_bytes, from_be_bytes, FitsAddr}
use ferroada.ProxyProtocol.{
  encode_v2, parse_v2, rest_len_from_prefix, parse_rest, parse_source, parse_inet4, parse_inet6,
}
use ferroada.Net.Laws.{from_be_bytes-to_be_bytes}
use ferroada.ProxyProtocol.Parsing.{parse_v2-local}

-- What the header carries of an address: not the flow label and the scope id.
abbrev pub carried : SocketAddr → SocketAddr
carried (v4 ip port) = v4 ip port
carried (v6 ip port flow scope) = v6 ip port 0 0

parse_v2-encode_v2_exact :
    (src dst : SocketAddr) (bs : List ℕ)
    → FitsAddr src
    → encode_v2 src dst ≡ ok bs
    → parse_v2 bs ≡ ok (some (carried src), length bs)
unfolding encode_v2 parse_v2 rest_len_from_prefix parse_rest parse_source parse_inet4 parse_inet6
    to_be_bytes from_be_bytes
parse_v2-encode_v2_exact (v4 src src_port) (v4 dst dst_port) bs (h, k) e = rw (← ok-injective e) (
    ap₂ (λ ip port. ok (some (v4 ip port), 28)) (from_be_bytes-to_be_bytes 4 src h)
      (from_be_bytes-to_be_bytes 2 src_port k))
parse_v2-encode_v2_exact (v6 src src_port _ _) (v6 dst dst_port _ _) bs (h, k) e =
    rw (← ok-injective e) (
      ap₂ (λ ip port. ok (some (v6 ip port 0 0), 52)) (from_be_bytes-to_be_bytes 16 src h)
        (from_be_bytes-to_be_bytes 2 src_port k))
parse_v2-encode_v2_exact (v4 _ _) (v6 _ _ _ _) bs h e = cc
parse_v2-encode_v2_exact (v6 _ _ _ _) (v4 _ _) bs h e = cc

-- Whatever address a header was written for, and whatever bytes follow it, `parse_v2` returns that
-- address and the header's length. Of a V6 address the flow label and the scope id are not sent.
pub parse_v2-encode_v2 :
    (src dst : SocketAddr) (bs more : List ℕ)
    → FitsAddr src
    → encode_v2 src dst ≡ ok bs
    → parse_v2 (bs ++ more) ≡ ok (some (carried src), length bs)
parse_v2-encode_v2 src dst bs more h e =
    parse_v2-local bs (bs ++ more) _ _ (parse_v2-encode_v2_exact src dst bs h e)
      (take-length-append bs more ∙ sym (take-length_self bs))
