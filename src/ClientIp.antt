-- ===== src/ClientIp.antt =====
-- src/client_ip.rs: whom a request comes from. `TrustedProxies` walks the addresses that proxies have
-- written into a header from the last one, as long as the address in hand is a trusted proxy's. The
-- variables of the environment are arguments, `none` where one is not set.
pub mod Network
pub mod Forwarded
pub mod Identity
pub mod Spoofing
mod Tests
use ferroada.Prelude.{
  List, [], ◌∷◌, Bool, true, false, not, ◌&&◌, ◌||◌, Option, none, some, list_eq, Result, ok, err,
  ◌>>=◌, if◌then◌else◌,
}
use mathlib.Core.List.{reverse}
use ferroada.Text.{Text, text, trim, is_empty, split, to_ascii_lowercase, keep_given}
use ferroada.RoutePath.{◌>>?◌}
use ferroada.Net.{IpAddr}
use ferroada.ClientIp.Network.{IpNetwork, NetworkError, network_contains, parse_network}
use ferroada.ClientIp.Forwarded.{
  parse_forwarded_ip, parse_single_ip, split_forwarded_elements, parse_forwarded_for_param,
}

pub record TrustedProxies : Type 0 where
  pub networks : List IpNetwork

pub data ClientIpSource : Type 0 where
  proxy_protocol forwarded x_forwarded_for header : ClientIpSource

pub data ForwardedMode : Type 0 where
  strip accept : ForwardedMode

pub record ClientIpConfig : Type 0 where
  pub order : List ClientIpSource
  pub forwarded : ForwardedMode
  pub extra_header : Option Text

unfoldable pub default_config : ClientIpConfig
default_config = record {
  order = ClientIpSource.proxy_protocol ∷ ClientIpSource.x_forwarded_for ∷ [];
  forwarded = ForwardedMode.strip;
  extra_header = none;
}

pub data ConfigError : Type 0 where
  forwarded_header unknown_source : Text → ConfigError
  empty_order header_undefined : ConfigError

unfoldable pub source_of : Text → Result ConfigError ClientIpSource
source_of token =
    if list_eq token (text "proxy_protocol")
    then ok ClientIpSource.proxy_protocol
    else if list_eq token (text "forwarded")
    then ok ClientIpSource.forwarded
    else if list_eq token (text "x-forwarded-for")
    then ok ClientIpSource.x_forwarded_for
    else if list_eq token (text "header")
    then ok ClientIpSource.header
    else err (ConfigError.unknown_source token)

-- `.map(f).collect::<Result<Vec<_>, _>>()`
abbrev pub collect {ℓ κ} :
    {E : Type ℓ} {A : Type κ} → (Text → Result E A) → List Text → Result E (List A)
collect f [] = ok []
collect f (t ∷ ts) = f t >>= λ x. collect f ts >>= λ xs. ok (x ∷ xs)

unfoldable pub parse_client_ip_order : Text → Result ConfigError (List ClientIpSource)
unfolding source_of
parse_client_ip_order raw = collect source_of (keep_given (split b',' raw)) >>= λ order.
    elim order [ [] ↦ err ConfigError.empty_order | s ∷ ss ↦ ok (s ∷ ss) ]

unfoldable pub forwarded_mode : Text → Result ConfigError ForwardedMode
forwarded_mode raw =
    let mode = to_ascii_lowercase (trim raw) in
    if list_eq mode (text "strip")
    then ok ForwardedMode.strip
    else if list_eq mode (text "accept")
    then ok ForwardedMode.accept
    else err (ConfigError.forwarded_header mode)

abbrev pub is_header : ClientIpSource → Bool
is_header ClientIpSource.header = true
is_header _ = false

abbrev pub has_header : List ClientIpSource → Bool
has_header [] = false
has_header (s ∷ ss) = is_header s || has_header ss

abbrev pub or_text : Option Text → Text → Text
or_text none other = other
or_text (some t) other = t

abbrev pub given_name : Option Text → Option Text
given_name none = none
given_name (some t) = if is_empty (trim t) then none else some (trim t)

abbrev pub is_none {ℓ} : {A : Type ℓ} → Option A → Bool
is_none none = true
is_none (some x) = false

-- `CLIENT_IP_ORDER`, `FORWARDED_HEADER` and `CLIENT_IP_HEADER`.
unfoldable pub from_env :
    Option Text → Option Text → Option Text → Result ConfigError ClientIpConfig
unfolding parse_client_ip_order forwarded_mode
from_env order_var forwarded_var header_var =
    parse_client_ip_order (or_text order_var (text "proxy_protocol,x-forwarded-for")) >>= λ order.
    forwarded_mode (or_text forwarded_var (text "strip")) >>= λ mode.
    if has_header order && is_none (given_name header_var)
    then err ConfigError.header_undefined
    else ok (record { order = order; forwarded = mode; extra_header = given_name header_var })

unfoldable pub parse : Text → Result NetworkError TrustedProxies
unfolding parse_network
parse value = collect parse_network (keep_given (split b',' value)) >>= λ networks.
    ok (record { networks = networks })

abbrev pub any_contains : List IpNetwork → IpAddr → Bool
unfolding network_contains
any_contains [] ip = false
any_contains (n ∷ ns) ip = network_contains n ip || any_contains ns ip

unfoldable pub contains : TrustedProxies → IpAddr → Bool
unfolding network_contains
contains t ip = any_contains t.networks ip

-- The loop of both headers, over the values from the last one.
unfoldable pub walk : TrustedProxies → (Text → Option IpAddr) → IpAddr → List Text → IpAddr
walk t candidate_of client_ip [] = client_ip
walk t candidate_of client_ip (value ∷ values) = elim (contains t client_ip) [
  | false ↦ client_ip
  | true ↦ elim (candidate_of value) [
    | none ↦ client_ip
    | some candidate ↦ walk t candidate_of candidate values
  ]
]

-- `parse_forwarded_ip(value.trim())` is `parse_single_ip`.
unfoldable pub walk_xff : TrustedProxies → IpAddr → Option Text → IpAddr
unfolding walk parse_single_ip
walk_xff t peer_ip none = peer_ip
walk_xff t peer_ip (some value) =
    if not (contains t peer_ip)
    then peer_ip
    else walk t parse_single_ip peer_ip (reverse (split b',' value))

unfoldable pub walk_forwarded : TrustedProxies → IpAddr → Option Text → IpAddr
unfolding walk split_forwarded_elements parse_forwarded_for_param
walk_forwarded t peer_ip none = peer_ip
walk_forwarded t peer_ip (some value) =
    if not (contains t peer_ip)
    then peer_ip
    else walk t parse_forwarded_for_param peer_ip (reverse (split_forwarded_elements value))

-- The headers that can name a client.
pub record Sources : Type 0 where
  pub x_forwarded_for : Option Text
  pub forwarded : Option Text
  pub extra_header : Option Text

abbrev pub accepts : ForwardedMode → Bool
accepts ForwardedMode.accept = true
accepts ForwardedMode.strip = false

unfoldable pub header_ip : TrustedProxies → IpAddr → Option Text → IpAddr
header_ip t current extra =
    if contains t current
    then elim (extra >>? parse_single_ip) [ none ↦ current | some candidate ↦ candidate ]
    else current

unfoldable pub step : TrustedProxies → Sources → ForwardedMode → ClientIpSource → IpAddr → IpAddr
unfolding walk_xff walk_forwarded header_ip
step t h mode ClientIpSource.proxy_protocol current = current
step t h mode ClientIpSource.x_forwarded_for current = walk_xff t current h.x_forwarded_for
step t h mode ClientIpSource.forwarded current =
    if accepts mode then walk_forwarded t current h.forwarded else current
step t h mode ClientIpSource.header current = header_ip t current h.extra_header

abbrev pub steps : TrustedProxies → Sources → ForwardedMode → List ClientIpSource → IpAddr → IpAddr
unfolding step
steps t h mode [] current = current
steps t h mode (s ∷ ss) current = steps t h mode ss (step t h mode s current)

unfoldable pub resolve_sources :
    TrustedProxies → Option IpAddr → Sources → ClientIpConfig → Option IpAddr
unfolding step
resolve_sources t none h config = none
resolve_sources t (some peer_ip) h config = some (steps t h config.forwarded config.order peer_ip)

unfoldable pub resolve : TrustedProxies → Option IpAddr → Option Text → Option IpAddr
unfolding resolve_sources default_config
resolve t peer_ip value =
    resolve_sources t peer_ip
      (record { x_forwarded_for = value; forwarded = none; extra_header = none }) default_config
