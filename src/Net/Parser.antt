-- ===== src/Net/Parser.antt =====
-- `parse::<IpAddr>()` and `parse::<SocketAddr>()`: the parser of addresses in Rust's standard library.
-- What a reader does not accept leaves the text as it was.
use ferroada.Prelude.{
  ℕ, zero, suc, ◌+◌, ◌-◌, ◌*◌, ◌/◌, ◌%◌, ◌^◌, ltb, ◌==◌, List, [], ◌∷◌, ◌++◌, length, Bool, true,
  false, not, ◌&&◌, ◌||◌, Option, none, some, if◌then◌else◌,
}
use ferroada.Text.{Text}
use ferroada.RoutePath.{◌>>?◌, hex_value}
use ferroada.Net.{IpAddr, SocketAddr}

-- `char::to_digit`
abbrev pub to_digit : ℕ → ℕ → Option ℕ
unfolding hex_value
to_digit radix c = hex_value c >>? λ d. if ltb d radix then some d else none

-- The value and the number of the digits in front, and what follows them.
unfoldable pub read_digits : ℕ → ℕ → ℕ → Text → ℕ × ℕ × Text
unfolding hex_value
read_digits radix acc n [] = (acc, n, [])
read_digits radix acc n (c ∷ cs) = elim (to_digit radix c) [
  | none ↦ (acc, n, c ∷ cs)
  | some d ↦ read_digits radix (acc * radix + d) (suc n) cs
]

abbrev pub starts_zero : Text → Bool
starts_zero [] = false
starts_zero (c ∷ cs) = c == b'0'

-- A number below `bound`, of at most `max` digits where there is such a limit.
unfoldable pub read_number : ℕ → Option ℕ → Bool → ℕ → Text → Option (ℕ × Text)
unfolding read_digits
read_number radix limit zero_prefix bound t =
    let r = read_digits radix 0 0 t in
    let many : Bool = elim limit [ none ↦ false | some max ↦ ltb max r.1 ] in
    if many || r.1 == 0 || (not zero_prefix && starts_zero t && ltb 1 r.1) || not (ltb r.0 bound)
    then none
    else some (r.0, r.2)

unfoldable pub read_given_char : ℕ → Text → Option Text
read_given_char given [] = none
read_given_char given (c ∷ cs) = if c == given then some cs else none

unfoldable pub read_separator : ℕ → ℕ → Text → Option Text
unfolding read_given_char
read_separator sep zero t = some t
read_separator sep (suc i) t = read_given_char sep t

unfoldable pub read_octets : ℕ → ℕ → ℕ → Text → Option (ℕ × Text)
unfolding read_separator read_number
read_octets zero i acc t = some (acc, t)
read_octets (suc n) i acc t = read_separator b'.' i t >>? λ u.
    read_number 10 (some 3) false 256 u >>? λ r. read_octets n (suc i) (acc * 256 + r.0) r.1

unfoldable pub read_ipv4_addr : Text → Option (ℕ × Text)
unfolding read_octets
read_ipv4_addr t = read_octets 4 0 0 t

-- At the `i`-th group, with `k` slots behind it: an embedded IPv4 address takes two.
unfoldable pub read_embedded : ℕ → ℕ → Text → Option (ℕ × Text)
unfolding read_ipv4_addr read_separator
read_embedded zero i t = none
read_embedded (suc k) i t = read_separator b':' i t >>? read_ipv4_addr

unfoldable pub read_group : ℕ → Text → Option (ℕ × Text)
unfolding read_separator read_number
read_group i t = read_separator b':' i t >>? λ u. read_number 16 (some 4) true (2 ^ 16) u

unfoldable pub read_groups : ℕ → ℕ → Text → List ℕ × Bool × Text
unfolding read_embedded read_group
read_groups zero i t = ([], false, t)
read_groups (suc k) i t = elim (read_embedded k i t) [
  | some (ip, rest) ↦ (ip / 2 ^ 16 ∷ ip % 2 ^ 16 ∷ [], true, rest)
  | none ↦ elim (read_group i t) [
    | none ↦ ([], false, t)
    | some (g, rest) ↦ let more = read_groups k (suc i) rest in (g ∷ more.0, more.1, more.2)
  ]
]

abbrev pub of_groups : ℕ → List ℕ → ℕ
of_groups acc [] = acc
of_groups acc (g ∷ gs) = of_groups (acc * 2 ^ 16 + g) gs

abbrev pub zeros : ℕ → List ℕ
zeros zero = []
zeros (suc n) = 0 ∷ zeros n

-- `::`, and the groups behind it.
abbrev pub read_back : List ℕ → Text → Option (ℕ × Text)
unfolding read_given_char read_groups
read_back head t = read_given_char b':' t >>? λ u. read_given_char b':' u >>? λ v.
    let tail = read_groups (8 - (length head + 1)) 0 v in
    some (of_groups 0 (head ++ zeros (8 - length head - length tail.0) ++ tail.0), tail.2)

unfoldable pub read_ipv6_addr : Text → Option (ℕ × Text)
unfolding read_groups read_given_char
read_ipv6_addr t =
    let head = read_groups 8 0 t in
    if length head.0 == 8
    then some (of_groups 0 head.0, head.2)
    else if head.1
    then none
    else read_back head.0 head.2

unfoldable pub read_port : Text → Option (ℕ × Text)
unfolding read_given_char read_number
read_port t = read_given_char b':' t >>? read_number 10 none true (2 ^ 16)

-- `%` and a number, or 0.
unfoldable pub read_scope_id : Text → ℕ × Text
unfolding read_given_char read_number
read_scope_id t = elim (read_given_char b'%' t >>? read_number 10 none true (2 ^ 32)) [
  | none ↦ (0, t)
  | some r ↦ r
]

abbrev pub all_read {ℓ} : {A : Type ℓ} → Option (A × Text) → Option A
all_read none = none
all_read (some (x, [])) = some x
all_read (some (x, c ∷ cs)) = none

abbrev pub or_else {ℓ} : {A : Type ℓ} → Option A → Option A → Option A
or_else (some x) other = some x
or_else none other = other

unfoldable pub parse_ip_addr : Text → Option IpAddr
unfolding read_ipv4_addr read_ipv6_addr
parse_ip_addr t = all_read (
    or_else (read_ipv4_addr t >>? λ r. some (IpAddr.v4 r.0, r.1))
      (read_ipv6_addr t >>? λ r. some (IpAddr.v6 r.0, r.1)))

unfoldable pub read_socket_v4 : Text → Option (SocketAddr × Text)
unfolding read_ipv4_addr read_port
read_socket_v4 t =
    read_ipv4_addr t >>? λ ip. read_port ip.1 >>? λ port. some (SocketAddr.v4 ip.0 port.0, port.1)

unfoldable pub read_socket_v6 : Text → Option (SocketAddr × Text)
unfolding read_ipv6_addr read_port read_scope_id read_given_char
read_socket_v6 t = read_given_char b'[' t >>? λ u. read_ipv6_addr u >>? λ ip.
    let scope = read_scope_id ip.1 in
    read_given_char b']' scope.1 >>? λ v.
    read_port v >>? λ port. some (SocketAddr.v6 ip.0 port.0 0 scope.0, port.1)

unfoldable pub parse_socket_addr : Text → Option SocketAddr
unfolding read_socket_v4 read_socket_v6
parse_socket_addr t = all_read (or_else (read_socket_v4 t) (read_socket_v6 t))
