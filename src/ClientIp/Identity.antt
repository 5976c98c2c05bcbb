-- ===== src/ClientIp/Identity.antt =====
-- The identity under which a client is judged, of src/client_ip.rs. `DefaultHasher` is an argument: the
-- library leaves open what it computes.
use ferroada.Prelude.{
  ℕ, ltb, ◌-◌, ◌%◌, ◌*◌, ◌^◌, ◌==◌, List, [], ◌∷◌, ◌++◌, length, Option, none, some, if◌then◌else◌,
}
use Prim.Native.Nat.{bit_and}
use ferroada.Text.{Text, text, trim, is_empty, split, to_ascii_lowercase}
use ferroada.RoutePath.Utf8.{as_bytes}
use ferroada.Net.{IpAddr}
use ferroada.Net.Parser.{or_else}

pub record SiteClientKey : Type 0 where
  pub site : Text
  pub network : IpAddr

pub record RiskIdentity : Type 0 where
  pub site : Text
  pub network : IpAddr
  pub route : Text
  pub session_hash : Option ℕ
  pub api_key_hash : Option ℕ
  pub jwt_sub_hash : Option ℕ
  pub jwt_tenant_hash : Option ℕ
  pub tls_fingerprint : Option ℕ
  pub http_fingerprint : Option ℕ
  pub asn : Option ℕ

unfoldable pub network_key : RiskIdentity → SiteClientKey
network_key i = record { site = i.site; network = i.network }

-- The first 64 bits of a V6 address; a V4 address whole.
unfoldable pub risk_network : IpAddr → IpAddr
risk_network (IpAddr.v4 ip) = IpAddr.v4 ip
risk_network (IpAddr.v6 ip) = IpAddr.v6 (bit_and ip (((2 ^ 128 - 1) * 2 ^ 64) % 2 ^ 128))

abbrev pub nonempty_only : List Text → List Text
nonempty_only [] = []
nonempty_only (t ∷ ts) = let rest = nonempty_only ts in if is_empty t then rest else t ∷ rest

abbrev pub first_part : List Text → Text → Text
first_part [] other = other
first_part (t ∷ ts) other = t

abbrev pub grouped : List Text → Text
grouped [] = text "/"
grouped (first ∷ []) = b'/' ∷ first
grouped (first ∷ second ∷ rest) = b'/' ∷ first ++ b'/' ∷ second

unfoldable pub route_group : Text → Text
route_group uri = grouped (nonempty_only (split b'/' (first_part (split b'?' uri) uri)))

unfoldable pub bounded_hash : (Text → ℕ) → Option Text → Option ℕ
bounded_hash hash none = none
bounded_hash hash (some value) =
    let t = trim value in
    if is_empty t then none else if ltb 512 (length (as_bytes t)) then none else some (hash t)

unfoldable pub site_client_key : Text → IpAddr → SiteClientKey
unfolding risk_network
site_client_key site ip = record { site = to_ascii_lowercase site; network = risk_network ip }

unfoldable pub new : (Text → ℕ) → Text → IpAddr → Text → Option Text → Option Text → RiskIdentity
unfolding risk_network route_group bounded_hash
new hash site ip uri session_id api_key = record {
  site = to_ascii_lowercase site;
  network = risk_network ip;
  route = route_group uri;
  session_hash = bounded_hash hash session_id;
  api_key_hash = bounded_hash hash api_key;
  jwt_sub_hash = none;
  jwt_tenant_hash = none;
  tls_fingerprint = none;
  http_fingerprint = none;
  asn = none;
}

unfoldable pub set_jwt : (Text → ℕ) → Option Text → Option Text → RiskIdentity → RiskIdentity
unfolding bounded_hash
set_jwt hash sub tenant i = record i {
  jwt_sub_hash = bounded_hash hash sub;
  jwt_tenant_hash = bounded_hash hash tenant;
}

abbrev pub nonzero : Option ℕ → Option ℕ
nonzero none = none
nonzero (some n) = if n == 0 then none else some n

unfoldable pub set_fingerprints : Option ℕ → Option ℕ → RiskIdentity → RiskIdentity
set_fingerprints tls http i = record i {
  tls_fingerprint = nonzero tls;
  http_fingerprint = nonzero http;
}

unfoldable pub set_asn : Option ℕ → RiskIdentity → RiskIdentity
set_asn asn i = record i { asn = nonzero asn }

unfoldable pub preferred_fingerprint : RiskIdentity → Option ℕ
preferred_fingerprint i = or_else i.tls_fingerprint i.http_fingerprint
