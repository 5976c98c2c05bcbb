-- ===== src/Shield/Authority.antt =====
-- `check_host_authority` of src/shield.rs: the `Host` header and the authority of the URI name the same
-- origin.
use ferroada.Prelude.{Bool, true, false, not, ◌&&◌, Option, none, some, list_eq, if◌then◌else◌}
use ferroada.Text.{
  Text, text, is_empty, eq_ignore_ascii_case, split_once, rsplit_once, strip_prefix,
}
use ferroada.RoutePath.{◌>>?◌}
use ferroada.Grpc.Timeout.{all_digits}
use ferroada.Grpc.{given}
use ferroada.Shield.{ShieldVerdict}

-- What follows the last `@`.
unfoldable pub without_userinfo : Text → Text
without_userinfo value = elim (rsplit_once b'@' value) [ some (user, rest) ↦ rest | none ↦ value ]

unfoldable pub bracketed_port : Text → Option (Option Text)
bracketed_port rest =
    if is_empty rest then some none else strip_prefix rest (text ":") >>? λ port. some (some port)

unfoldable pub split_bracketed : Text → Option (Text × Option Text)
unfolding bracketed_port
split_bracketed rest = split_once b']' rest >>? λ parts.
    if is_empty parts.0 then none else bracketed_port parts.1 >>? λ port. some (parts.0, port)

abbrev pub host_only : Text → Option (Text × Option Text)
host_only value = if not (is_empty value) then some (value, none) else none

unfoldable pub split_plain : Text → Option (Text × Option Text)
split_plain value = elim (rsplit_once b':' value) [
  | none ↦ host_only value
  | some (host, port) ↦
      if not (is_empty host) && not (is_empty port) && all_digits port
      then some (host, some port)
      else host_only value
]

unfoldable pub split_host_port : Text → Option (Text × Option Text)
unfolding without_userinfo split_bracketed split_plain
split_host_port value = elim (strip_prefix (without_userinfo value) (text "[")) [
  | some rest ↦ split_bracketed rest
  | none ↦ split_plain (without_userinfo value)
]

abbrev pub ports_match : Option Text → Option Text → Bool
ports_match (some left) (some right) = list_eq left right
ports_match _ _ = true

abbrev pub origins_match : Text × Option Text → Text × Option Text → Bool
origins_match (host_a, port_a) (host_b, port_b) =
    eq_ignore_ascii_case host_a host_b && ports_match port_a port_b

unfoldable pub authorities_match : Text → Text → Bool
unfolding split_host_port
authorities_match host_header uri_authority = elim (split_host_port host_header) [
  | none ↦ false
  | some a ↦ elim (split_host_port uri_authority) [ none ↦ false | some b ↦ origins_match a b ]
]

-- Where both are given.
abbrev pub verdict_of : Option Text → Option Text → ShieldVerdict
unfolding authorities_match
verdict_of (some host) (some authority) =
    if authorities_match host authority then ShieldVerdict.allow else ShieldVerdict.block_host
verdict_of _ _ = ShieldVerdict.allow

unfoldable pub check_host_authority : Option Text → Option Text → ShieldVerdict
unfolding authorities_match
check_host_authority host_header uri_authority =
    verdict_of (given host_header) (given uri_authority)
