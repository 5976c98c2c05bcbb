-- ===== src/ProxyProtocol.antt =====
-- src/proxy_protocol.rs: the PROXY protocol v2 header in front of a TCP or TLS stream. Bytes are
-- numbers below 256; `x >> 4` is `x / 16` and `x & 0x0F` is `x % 16`. Each index follows the test
-- of the length that keeps it in range, so the default of `get_or` is not reached.
pub mod Parsing
pub mod RoundTrip
pub mod Reading
mod Tests
use Prim.Native.Nat.{bit_or}
use ferroada.Prelude.{
  ℕ, ◌+◌, ◌*◌, ◌/◌, ◌%◌, Bool, true, false, not, ◌&&◌, Option, none, some, List, [], ◌∷◌, ◌++◌, leb,
  ltb, ◌==◌, if◌then◌else◌, length, get_or, take, drop, list_eq, Result, ok, err, ◌>>=◌, ◌>>◌,
  ensure,
}
use ferroada.Net.{from_be_bytes, to_be_bytes, SocketAddr, v4, v6}

abbrev pub signature : List ℕ
signature = 0x0D ∷ 0x0A ∷ 0x0D ∷ 0x0A ∷ 0x00 ∷ 0x0D ∷ 0x0A ∷ 0x51 ∷ 0x55 ∷ 0x49 ∷ 0x54 ∷ 0x0A ∷ []

abbrev pub prefix : ℕ
prefix = 16

abbrev pub max_header : ℕ
max_header = 16 + 64 * 1024

abbrev pub cmd_local : ℕ
cmd_local = 0x00

abbrev pub cmd_proxy : ℕ
cmd_proxy = 0x01

abbrev pub fam_unspec : ℕ
fam_unspec = 0x00

abbrev pub fam_inet : ℕ
fam_inet = 0x01

abbrev pub fam_inet6 : ℕ
fam_inet6 = 0x02

abbrev pub fam_unix : ℕ
fam_unix = 0x03

abbrev pub inet_addr : ℕ
inet_addr = 12

abbrev pub inet6_addr : ℕ
inet6_addr = 36

abbrev pub unix_addr : ℕ
unix_addr = 216

pub data ProxyProtocolError : Type 0 where
  not_v2 truncated oversized invalid timeout : ProxyProtocolError

unfoldable pub rest_len_from_prefix : List ℕ → Result ProxyProtocolError ℕ
rest_len_from_prefix bytes = do
  ensure (list_eq (take 12 bytes) signature) not_v2
  ensure (get_or bytes 12 0 / 16 == 2) not_v2
  let len = from_be_bytes (get_or bytes 14 0 ∷ get_or bytes 15 0 ∷ [])
  ensure (leb (prefix + len) max_header) oversized
  ok len

unfoldable pub parse_inet4 : List ℕ → Result ProxyProtocolError SocketAddr
parse_inet4 addr = do
  ensure (leb inet_addr (length addr)) invalid
  let ip =
      from_be_bytes (get_or addr 0 0 ∷ get_or addr 1 0 ∷ get_or addr 2 0 ∷ get_or addr 3 0 ∷ [])
  let port = from_be_bytes (get_or addr 8 0 ∷ get_or addr 9 0 ∷ [])
  ok (v4 ip port)

unfoldable pub parse_inet6 : List ℕ → Result ProxyProtocolError SocketAddr
parse_inet6 addr = do
  ensure (leb inet6_addr (length addr)) invalid
  let octets = take 16 addr
  let port = from_be_bytes (get_or addr 32 0 ∷ get_or addr 33 0 ∷ [])
  ok (v6 (from_be_bytes octets) port 0 0)

-- The `match family` of `parse_v2`.
unfoldable pub parse_source : ℕ → List ℕ → Result ProxyProtocolError (Option SocketAddr)
parse_source family addr =
    if family == fam_unspec
    then ok none
    else if family == fam_inet
    then (do source ← parse_inet4 addr; ok (some source))
    else if family == fam_inet6
    then (do source ← parse_inet6 addr; ok (some source))
    else if family == fam_unix
    then (do ensure (leb unix_addr (length addr)) invalid; ok none)
    else err invalid

-- The address block, once the whole header is there.
unfoldable pub parse_rest : ℕ → List ℕ → Result ProxyProtocolError (Option SocketAddr × ℕ)
parse_rest rest bytes =
    let total = prefix + rest in
    let command = get_or bytes 12 0 % 16 in
    if not (command == cmd_local) && not (command == cmd_proxy)
    then err invalid
    else if command == cmd_local
    then ok (none, total)
    else (do
      source ← parse_source (get_or bytes 13 0 / 16) (take rest (drop prefix bytes))
      ok (source, total))

-- The source address, if the command carries one, and the number of bytes of the header.
unfoldable pub parse_v2 : List ℕ → Result ProxyProtocolError (Option SocketAddr × ℕ)
parse_v2 bytes = do
  ensure (leb prefix (length bytes)) truncated
  rest ← rest_len_from_prefix (take prefix bytes)
  ensure (leb (prefix + rest) (length bytes)) truncated
  parse_rest rest bytes

-- `read_exact` of `n` bytes from the bytes that the peer sends before it closes.
unfoldable pub read_exact : ℕ → List ℕ → Result ProxyProtocolError (List ℕ × List ℕ)
read_exact n stream =
    if leb n (length stream) then ok (take n stream, drop n stream) else err truncated

-- The source address and what is left of the stream.
unfoldable pub read_v2 : List ℕ → Result ProxyProtocolError (Option SocketAddr × List ℕ)
read_v2 stream = do
  (head, stream₁) ← read_exact prefix stream
  rest_len ← rest_len_from_prefix head
  (body, stream₂) ← (if ltb 0 rest_len then read_exact rest_len stream₁ else ok ([], stream₁))
  (source, _) ← parse_v2 (head ++ body)
  ok (source, stream₂)

-- `elapsed`: the read deadline passes before the header is there.
unfoldable pub consume_v2 : Bool → List ℕ → Result ProxyProtocolError (Option SocketAddr × List ℕ)
consume_v2 elapsed stream = if elapsed then err timeout else read_v2 stream

-- What Pingora knows of a connection: the cells of its `SocketDigest` that hold an address.
pub record Digest : Type 0 where
  pub peer_addr : Option SocketAddr
  pub local_addr : Option SocketAddr

pub record Stream : Type 0 where
  pub unread : List ℕ
  pub digest : Digest

-- A fresh digest with the source as the peer; a local address that was known is kept.
unfoldable pub apply_peer : Digest → SocketAddr → Digest
apply_peer old source = record { peer_addr = some source; local_addr = old.local_addr }

unfoldable pub consume_and_apply : Bool → Stream → Result ProxyProtocolError Stream
consume_and_apply elapsed stream = do
  (source, unread) ← consume_v2 elapsed stream.unread
  ok (record {
    unread = unread;
    digest = elim source [ none ↦ stream.digest | some addr ↦ apply_peer stream.digest addr ];
  })

unfoldable pub encode_v2 : SocketAddr → SocketAddr → Result ProxyProtocolError (List ℕ)
encode_v2 (v4 src src_port) (v4 dst dst_port) = ok (
    signature
    ++ bit_or 0x20 cmd_proxy ∷ bit_or (fam_inet * 16) 0x01 ∷ to_be_bytes 2 inet_addr
    ++ to_be_bytes 4 src
    ++ to_be_bytes 4 dst
    ++ to_be_bytes 2 src_port
    ++ to_be_bytes 2 dst_port)
encode_v2 (v6 src src_port _ _) (v6 dst dst_port _ _) = ok (
    signature
    ++ bit_or 0x20 cmd_proxy ∷ bit_or (fam_inet6 * 16) 0x01 ∷ to_be_bytes 2 inet6_addr
    ++ to_be_bytes 16 src
    ++ to_be_bytes 16 dst
    ++ to_be_bytes 2 src_port
    ++ to_be_bytes 2 dst_port)
encode_v2 _ _ = err invalid

unfoldable pub encode_v2_local : List ℕ
encode_v2_local = signature ++ bit_or 0x20 cmd_local ∷ 0x00 ∷ to_be_bytes 2 0
