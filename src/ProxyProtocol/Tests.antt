-- ===== src/ProxyProtocol/Tests.antt =====
-- Headers as the tests of src/proxy_protocol.rs build them, and the theorems at them.
use ferroada.Prelude.{
  ℕ, ◌≡◌, refl, List, All, take, Option, ◌++◌, ok, ◌∷◌, [], err, arith, some, get_or, ◌≢◌, drop,
  ◌>>=◌, ◌≤◌, none, length, false,
}
use ferroada.ProxyProtocol.{
  parse_v2, encode_v2, rest_len_from_prefix, read_v2, Stream, consume_and_apply, signature,
  parse_rest, consume_v2, encode_v2_local, read_exact, apply_peer, invalid, oversized, parse_source,
  parse_inet4,
}
use ferroada.ProxyProtocol.RoundTrip.{parse_v2-encode_v2}
use ferroada.Net.{SocketAddr, v4, to_be_bytes, IsByte, from_be_bytes, FitsAddr}
use ferroada.ProxyProtocol.Parsing.{parse_v2-local, parse_v2-ne-oversized, parse_v2-some}
use ferroada.ProxyProtocol.Reading.{behind, read_v2-eq-parse_v2, consume_and_apply_lem}

-- 203.0.113.9:4321
abbrev client : SocketAddr
client = v4 3405803785 4321

abbrev local_end : SocketAddr
local_end = v4 2130706433 80

abbrev client_header : List ℕ
client_header =
    signature ++ 0x21 ∷ 0x11 ∷ 0 ∷ 12 ∷ 203 ∷ 0 ∷ 113 ∷ 9 ∷ 127 ∷ 0 ∷ 0 ∷ 1 ∷ 16 ∷ 225 ∷ 0 ∷ 80 ∷ []

client_header-encoded : encode_v2 client local_end ≡ ok client_header
unfolding encode_v2 to_be_bytes
client_header-encoded = refl

local_header : parse_v2 encode_v2_local ≡ ok (none, 16)
unfolding parse_v2 rest_len_from_prefix parse_rest encode_v2_local to_be_bytes from_be_bytes
local_header = refl

unknown_command : parse_v2 (signature ++ 0x22 ∷ 0x11 ∷ 0 ∷ 0 ∷ []) ≡ err invalid
unfolding parse_v2 rest_len_from_prefix parse_rest from_be_bytes
unknown_command = refl

client_header-bytes : All IsByte (client_header ++ 71 ∷ 69 ∷ [])
client_header-bytes = omega arith

parse_v2-encode_v2_example : parse_v2 (client_header ++ 71 ∷ 69 ∷ []) ≡ ok (some client, 28)
parse_v2-encode_v2_example =
    parse_v2-encode_v2 client local_end client_header (71 ∷ 69 ∷ []) (omega arith)
      client_header-encoded

parse_v2-local_example : parse_v2 (client_header ++ 1 ∷ []) ≡ ok (some client, 28)
parse_v2-local_example =
    parse_v2-local (client_header ++ 71 ∷ 69 ∷ []) (client_header ++ 1 ∷ []) (some client) 28
      parse_v2-encode_v2_example refl

parse_v2-some_example :
    (take 12 (client_header ++ 71 ∷ 69 ∷ []) ≡ signature)
    × (get_or (client_header ++ 71 ∷ 69 ∷ []) 12 0 ≡ 0x21)
    × (28 ≤ length (client_header ++ 71 ∷ 69 ∷ []))
    × FitsAddr client
parse_v2-some_example =
    parse_v2-some (client_header ++ 71 ∷ 69 ∷ []) client 28 client_header-bytes
      parse_v2-encode_v2_example

parse_v2-ne-oversized_example : parse_v2 (client_header ++ 71 ∷ 69 ∷ []) ≢ err oversized
parse_v2-ne-oversized_example =
    parse_v2-ne-oversized (client_header ++ 71 ∷ 69 ∷ []) client_header-bytes

read_v2-eq-parse_v2_example :
    read_v2 (client_header ++ 71 ∷ 69 ∷ [])
    ≡ (parse_v2 (client_header ++ 71 ∷ 69 ∷ []) >>= behind (client_header ++ 71 ∷ 69 ∷ []))
read_v2-eq-parse_v2_example = read_v2-eq-parse_v2 (client_header ++ 71 ∷ 69 ∷ [])

abbrev accepted : Stream
accepted = record {
  unread = client_header ++ 71 ∷ 69 ∷ [];
  digest = record { peer_addr = some local_end; local_addr = some local_end };
}

accepted-applied :
    consume_and_apply false accepted
    ≡ ok (record {
      unread = 71 ∷ 69 ∷ [];
      digest = record { peer_addr = some client; local_addr = some local_end };
    })
unfolding consume_and_apply consume_v2 read_v2 read_exact apply_peer parse_v2 rest_len_from_prefix
    parse_rest parse_source parse_inet4 from_be_bytes
accepted-applied = refl

consume_and_apply_lem_example :
    (source : Option SocketAddr) × (n : ℕ) × (parse_v2 accepted.unread ≡ ok (source, n))
    × (◌≡◌ {A = List ℕ} (71 ∷ 69 ∷ []) (drop n accepted.unread))
    × (◌≡◌ {A = Option SocketAddr} (some local_end) (some local_end))
    × (some client ≡ (elim source [ none ↦ some local_end | some addr ↦ some addr ]))
consume_and_apply_lem_example = consume_and_apply_lem false accepted _ accepted-applied
