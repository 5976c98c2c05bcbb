-- ===== src/Origin.antt =====
-- src/origin.rs: to which of a site's origins a request is sent. Not modelled: the health checks
-- themselves, which the library runs; what they do to the pool is `on_health`. A certificate is a
-- number here, its handle.
pub mod Circuit
pub mod Round
pub mod Picking
mod Tests
use ferroada.Prelude.{
  ℕ, zero, suc, ◌+◌, ◌/◌, ◌%◌, ◌^◌, leb, ltb, ◌==◌, min, max, List, [], ◌∷◌, length, get_or, Bool,
  true, false, not, ◌&&◌, ◌||◌, Option, none, some, list_eq, if◌then◌else◌,
}
use ferroada.Text.{Text, text, text_eq}
use ferroada.RoutePath.{◌>>?◌}
use ferroada.Grpc.DeadlineText.{parse_u64}
use ferroada.Net.{IpAddr, SocketAddr, addr_eq, same_addr}
use ferroada.DashMap.{DashMap, get, has, put, remove, or_default}
use ferroada.Origin.Circuit.{CircuitBreaker, allows_traffic}
use ferroada.Origin.Circuit

pub record OriginEndpoint : Type 0 where
  pub addr : SocketAddr
  pub host : Text
  pub tls : Bool

-- The fields of `Backend` that the module reads.
pub record Backend : Type 0 where
  pub addr : SocketAddr
  pub host : Text
  pub site_scope : Text
  pub tls : Bool
  pub origins : List OriginEndpoint
  pub origin_mtls : Option ℕ

pub record PickedOrigin : Type 0 where
  pub addr : SocketAddr
  pub host : Text
  pub tls : Bool
  pub mtls : Option ℕ

unfoldable pub from_backend : Backend → PickedOrigin
from_backend b = record { addr = b.addr; host = b.host; tls = b.tls; mtls = b.origin_mtls }

unfoldable pub from_endpoint : OriginEndpoint → Option ℕ → PickedOrigin
from_endpoint o mtls = record { addr = o.addr; host = o.host; tls = o.tls; mtls = mtls }

unfoldable pub method_is_idempotent : Text → Bool
method_is_idempotent method =
    list_eq method (text "GET") || list_eq method (text "HEAD") || list_eq method (text "OPTIONS")

unfoldable pub extra_retry_budget : ℕ → Bool → ℕ
extra_retry_budget configured balanced =
    if balanced then max (min configured 3) 1 else min configured 3

-- `MAX_UPSTREAM_RETRIES`, a number of 32 bits.
unfoldable pub configured_extra_retries : Option Text → ℕ
configured_extra_retries value = elim (value >>? parse_u64) [
  | none ↦ 0
  | some n ↦ if ltb n (2 ^ 32) then min n 3 else 0
]

unfoldable pub is_balanced : Backend → Bool
is_balanced b = ltb 1 (length b.origins)

-- `to_canonical`: an address of ::ffff:0:0/96 is the V4 address in it.
unfoldable pub to_canonical : IpAddr → IpAddr
to_canonical (IpAddr.v4 ip) = IpAddr.v4 ip
to_canonical (IpAddr.v6 ip) =
    if ip / 2 ^ 32 == 0xFFFF then IpAddr.v4 (ip % 2 ^ 32) else IpAddr.v6 ip

abbrev pub socket_addr : IpAddr → ℕ → SocketAddr
socket_addr (IpAddr.v4 ip) port = SocketAddr.v4 ip port
socket_addr (IpAddr.v6 ip) port = SocketAddr.v6 ip port 0 0

unfoldable pub canonical_addr : SocketAddr → SocketAddr
unfolding to_canonical
canonical_addr (SocketAddr.v4 ip port) = socket_addr (to_canonical (IpAddr.v4 ip)) port
canonical_addr (SocketAddr.v6 ip port flow scope) = socket_addr (to_canonical (IpAddr.v6 ip)) port

pub record SitePool : Type 0 where
  pub circuits : DashMap SocketAddr CircuitBreaker
  pub down : DashMap SocketAddr (Unit {0})
  pub cursor : ℕ
  pub mtls : Option ℕ

-- `build_pool`, with what of it later steps read.
unfoldable pub build_pool : Backend → SitePool
build_pool b = record { circuits = []; down = []; cursor = 0; mtls = b.origin_mtls }

unfoldable pub is_down : SitePool → SocketAddr → Bool
unfolding canonical_addr
is_down p addr = has p.down (canonical_addr addr)

unfoldable pub circuit_allows : ℕ → SitePool → SocketAddr → Bool
unfolding canonical_addr
circuit_allows now p addr = elim (get p.circuits (canonical_addr addr)) [
  | none ↦ true
  | some circuit ↦ allows_traffic now circuit
]

-- `entry(canonical_addr(addr)).or_insert_with(CircuitBreaker::new)`
unfoldable pub circuit_of : SitePool → SocketAddr → CircuitBreaker
unfolding canonical_addr
circuit_of p addr = or_default Circuit.new (get p.circuits (canonical_addr addr))

unfoldable pub put_circuit : SocketAddr → CircuitBreaker → SitePool → SitePool
unfolding canonical_addr
put_circuit addr c p = record p { circuits = put p.circuits (canonical_addr addr) c }

unfoldable pub can_send : ℕ → SocketAddr → SitePool → SitePool × Bool
unfolding circuit_of put_circuit
can_send now addr p =
    let r = Circuit.can_send now (circuit_of p addr) in (put_circuit addr r.0 p, r.1)

abbrev pub is_tried : List SocketAddr → SocketAddr → Bool
unfolding canonical_addr
is_tried [] addr = false
is_tried (t ∷ ts) addr = same_addr (canonical_addr t) (canonical_addr addr) || is_tried ts addr

-- `origins[(start + offset) % n]`, from `offset` on. The sum has 64 bits and wraps.
unfoldable pub candidates : List OriginEndpoint → OriginEndpoint → ℕ → ℕ → ℕ → List OriginEndpoint
candidates origins d start offset zero = []
candidates origins d start offset (suc k) =
    get_or origins ((start + offset) % 2 ^ 64 % length origins) d
    ∷ candidates origins d start (suc offset) k

-- The loop: one that is tried or down is passed over, and then its circuit is asked, at the reading of
-- the clock of that step.
unfoldable pub try_each :
    (ℕ → ℕ) → List SocketAddr → List OriginEndpoint → SitePool → SitePool × Option OriginEndpoint
unfolding is_down can_send
try_each clock tried [] p = (p, none)
try_each clock tried (o ∷ os) p = elim (is_tried tried o.addr || is_down p o.addr) [
  | true ↦ try_each (λ k. clock (suc k)) tried os p
  | false ↦ elim (can_send (clock 0) o.addr p).1 [
    | true ↦ ((can_send (clock 0) o.addr p).0, some o)
    | false ↦ try_each (λ k. clock (suc k)) tried os (can_send (clock 0) o.addr p).0
  ]
]

unfoldable pub pick_origin :
    (ℕ → ℕ) → List SocketAddr → List OriginEndpoint → SitePool → SitePool × Option OriginEndpoint
unfolding candidates try_each
pick_origin clock tried [] p = (p, none)
pick_origin clock tried (o ∷ os) p =
    try_each clock tried (candidates (o ∷ os) o p.cursor 0 (length (o ∷ os)))
      (record p { cursor = (p.cursor + 1) % 2 ^ 64 })

pub record OriginPools : Type 0 where
  pub sites : DashMap Text SitePool

abbrev pub endpoint_of : Option ℕ → Option OriginEndpoint → Option PickedOrigin
unfolding from_endpoint
endpoint_of mtls none = none
endpoint_of mtls (some o) = some (from_endpoint o mtls)

unfoldable pub pick :
    (ℕ → ℕ) → Backend → List SocketAddr → OriginPools → OriginPools × Option PickedOrigin
unfolding is_balanced from_backend pick_origin
pick clock b tried pools =
    if not (is_balanced b)
    then (pools, some (from_backend b))
    else elim (get pools.sites b.site_scope) [
      | none ↦ (pools, none)
      | some p ↦
          let r = pick_origin clock tried b.origins p in
          (record { sites = put pools.sites b.site_scope r.0 }, endpoint_of p.mtls r.1)
    ]

abbrev pub any_ready : ℕ → SitePool → List OriginEndpoint → Bool
unfolding is_down circuit_allows
any_ready now p [] = false
any_ready now p (o ∷ os) =
    (not (is_down p o.addr) && circuit_allows now p o.addr) || any_ready now p os

unfoldable pub has_ready : ℕ → Backend → OriginPools → Bool
unfolding is_balanced is_down circuit_allows
has_ready now b pools =
    if not (is_balanced b)
    then true
    else elim (get pools.sites b.site_scope) [ none ↦ false | some p ↦ any_ready now p b.origins ]

unfoldable pub succeeded : SocketAddr → SitePool → SitePool
unfolding circuit_of put_circuit
succeeded addr p = put_circuit addr (Circuit.on_success (circuit_of p addr)) p

unfoldable pub failed : ℕ → SocketAddr → SitePool → SitePool
unfolding circuit_of put_circuit canonical_addr
failed now addr p =
    let q = put_circuit addr (Circuit.on_failure now (circuit_of p addr)) p in
    record q { down = put q.down (canonical_addr addr) tt }

abbrev pub at_site : Text → (SitePool → SitePool) → OriginPools → OriginPools
at_site scope change pools = elim (get pools.sites scope) [
  | none ↦ pools
  | some p ↦ record { sites = put pools.sites scope (change p) }
]

unfoldable pub record_success : Backend → SocketAddr → OriginPools → OriginPools
unfolding succeeded
record_success b addr pools = at_site b.site_scope (succeeded addr) pools

unfoldable pub record_failure : ℕ → Backend → SocketAddr → OriginPools → OriginPools
unfolding failed
record_failure now b addr pools = at_site b.site_scope (failed now addr) pools

-- What a health check of an address does to the pool (`TrackingHealth::check`).
unfoldable pub on_health : SocketAddr → Bool → SitePool → SitePool
unfolding succeeded canonical_addr
on_health addr passed p =
    if passed
    then succeeded addr (record p { down = remove p.down (canonical_addr addr) })
    else record p { down = put p.down (canonical_addr addr) tt }
