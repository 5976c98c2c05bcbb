-- ===== src/RateLimit/Tests.antt =====
-- Two requests of one client, and one too many.
use ferroada.Prelude.{
  ◌≡◌, refl, ◌<◌, ◌↔◌, true, false, All, [], ◌∷◌, arith, some, none, ◌+◌, ◌-◌, Bool, ◌≤◌, max,
  length,
}
use ferroada.Net.{IpAddr}
use ferroada.ClientIp.Identity.{RiskIdentity}
use ferroada.RateLimit.Key.{key_eq}
use ferroada.Window.{recent, retain_live}
use ferroada.RateLimit.Key.{keys_of}
use ferroada.RateLimit.{
  RateLimiter, new, check, maybe_sweep, admit_keys, evict_expired, enforce_cap,
}
use ferroada.RateLimit.Check.{queue, AreUnder, check-decides}
use ferroada.RateLimit.Counting.{check-counts}
use ferroada.DashMap.Laws.{IsUnique}
use ferroada.DashMap.{get, put, retain, len}
use ferroada.RateLimit.Cap.{len-check}

abbrev visitor : RiskIdentity
visitor = record {
  site = 97 ∷ [];
  network = IpAddr.v4 7;
  route = 47 ∷ [];
  session_hash = none;
  api_key_hash = some 5;
  jwt_sub_hash = none;
  jwt_tenant_hash = none;
  tls_fingerprint = none;
  http_fingerprint = none;
  asn = none;
}

abbrev first : RateLimiter × Bool
first = check 1 1 1 visitor (new 1 60 100)

allows : first.1 ≡ true
unfolding check new maybe_sweep admit_keys keys_of enforce_cap evict_expired retain_live get put
    retain
allows = refl

refuses : (check 2 2 2 visitor first.0).1 ≡ false
unfolding check new maybe_sweep admit_keys keys_of enforce_cap evict_expired retain_live get put
    retain
refuses = refl

abbrev second_sweep : RateLimiter
second_sweep = maybe_sweep 2 first.0

check-decides_example :
    ((check 2 2 2 visitor first.0).1 ≡ true)
    ↔ AreUnder second_sweep.max_requests second_sweep.window 2 second_sweep.requests
        (keys_of visitor)
check-decides_example = check-decides 2 2 2 visitor first.0

window_live : 1 - 1 < (new 1 60 100).window
unfolding new
window_live = omega arith

starts_empty : IsUnique (new 1 60 100).requests
unfolding new
starts_empty = tt

check-counts_example :
    All
      (λ k.
        recent (new 1 60 100).window 1 (queue first.0.requests k)
        ≡ recent (new 1 60 100).window 1 (queue (maybe_sweep 1 (new 1 60 100)).requests k) + 1)
      (keys_of visitor)
check-counts_example =
    check-counts 1 1 1 visitor (new 1 60 100) starts_empty (omega arith) window_live allows

len-check_example : len first.0.requests ≤ max (new 1 60 100).max_ips (length (keys_of visitor))
len-check_example = len-check 1 1 1 visitor (new 1 60 100) starts_empty allows
