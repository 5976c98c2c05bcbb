-- ===== src/ClientIp/Forwarded.antt =====
-- How src/client_ip.rs reads an address of `X-Forwarded-For`, and the elements of `Forwarded`
-- (RFC 7239). Its indices into bytes stand at ASCII characters, and are positions in the text.
use ferroada.Prelude.{
  ◌-◌, leb, ◌==◌, List, [], ◌∷◌, length, take, drop, Bool, true, false, not, ◌&&◌, ◌||◌, Option,
  none, some, if◌then◌else◌,
}
use ferroada.Text.{
  Text, text, trim, split, split_once, starts_with, ends_with, eq_ignore_ascii_case, onto_first,
  keep_given,
}
use ferroada.RoutePath.{◌>>?◌}
use ferroada.Net.{IpAddr, SocketAddr}
use ferroada.Net.Parser.{parse_ip_addr, parse_socket_addr, or_else}

abbrev pub address_of : SocketAddr → IpAddr
address_of (SocketAddr.v4 ip port) = IpAddr.v4 ip
address_of (SocketAddr.v6 ip port flow scope) = IpAddr.v6 ip

unfoldable pub parse_forwarded_ip : Text → Option IpAddr
parse_forwarded_ip value =
    or_else (parse_ip_addr value) (parse_socket_addr value >>? λ addr. some (address_of addr))

unfoldable pub parse_single_ip : Text → Option IpAddr
unfolding parse_forwarded_ip
parse_single_ip value = parse_forwarded_ip (trim value)

-- The pieces between the commas outside quotes.
unfoldable pub forwarded_pieces : Bool → Text → List Text
forwarded_pieces quoted [] = [] ∷ []
forwarded_pieces quoted (c ∷ cs) =
    let rest = forwarded_pieces (if c == b'"' then not quoted else quoted) cs in
    if c == b',' && not quoted then [] ∷ rest else onto_first c rest

unfoldable pub split_forwarded_elements : Text → List Text
unfolding forwarded_pieces
split_forwarded_elements value = keep_given (forwarded_pieces false value)

-- Without the quotes around it.
abbrev pub unquoted : Text → Text
unquoted raw =
    if leb 2 (length raw) && starts_with raw (text "\"") && ends_with raw (text "\"")
    then take (length raw - 2) (drop 1 raw)
    else raw

unfoldable pub parse_forwarded_for_value : Text → Option IpAddr
unfolding parse_forwarded_ip
parse_forwarded_for_value raw =
    let value = unquoted raw in
    if eq_ignore_ascii_case value (text "unknown") || starts_with value (text "_")
    then none
    else if starts_with value (text "[")
    then (split_once b']' (drop 1 value) >>? λ parts. parse_ip_addr parts.0)
    else parse_forwarded_ip value

-- The value of the first `for` among the pairs; a pair with no `=` is passed over.
unfoldable pub for_among : List Text → Option IpAddr
unfolding parse_forwarded_for_value
for_among [] = none
for_among (pair ∷ pairs) = elim (split_once b'=' (trim pair)) [
  | none ↦ for_among pairs
  | some (name, raw) ↦ elim (eq_ignore_ascii_case name (text "for")) [
    | false ↦ for_among pairs
    | true ↦ parse_forwarded_for_value (trim raw)
  ]
]

unfoldable pub parse_forwarded_for_param : Text → Option IpAddr
unfolding for_among
parse_forwarded_for_param element = for_among (split b';' element)
