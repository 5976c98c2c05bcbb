-- ===== src/RateLimit.antt =====
-- src/rate_limit.rs: how many requests a client, a route, a session or a credential may make. The
-- clock readings of a call are arguments. A call is one step: what other threads do to the map
-- between its statements is not modelled.
pub mod Key
pub mod Check
pub mod Counting
pub mod Eviction
pub mod Removal
pub mod Cap
mod Tests
use ferroada.Prelude.{
  ℕ, ◌+◌, ◌-◌, ◌*◌, ◌/◌, ◌%◌, ◌^◌, max, ltb, leb, ◌==◌, List, [], ◌∷◌, ◌++◌, length, take, Bool,
  true, false, Option, none, some, if◌then◌else◌,
}
use ferroada.DashMap.{DashMap, get, put, remove, retain, len, or_default}
use ferroada.Window.{retain_live}
use ferroada.ClientIp.Identity.{RiskIdentity}
use ferroada.RateLimit.Key.{RateKey, keys_of, key_eq, same_key}

abbrev pub default_max : ℕ
default_max = 100

abbrev pub default_window : ℕ
default_window = 60

abbrev pub default_max_ips : ℕ
default_max_ips = 50000

abbrev pub sweep_every : ℕ
sweep_every = 256

-- The window in nanoseconds.
pub record RateLimiter : Type 0 where
  pub requests : DashMap RateKey (List ℕ)
  pub max_requests : ℕ
  pub window : ℕ
  pub max_ips : ℕ
  pub hits : ℕ

unfoldable pub new : ℕ → ℕ → ℕ → RateLimiter
new max_requests window_secs max_ips = record {
  requests = [];
  max_requests = max_requests;
  window = window_secs * 10 ^ 9;
  max_ips = max max_ips 1;
  hits = 0;
}

-- `from_env`, of the values that the environment's variables parse to: the limit is divided among
-- the replicas.
abbrev or_else : ℕ → Option ℕ → ℕ
or_else d none = d
or_else d (some v) = v

unfoldable pub replicas : Option ℕ → ℕ
replicas none = 1
replicas (some n) = if ltb 0 n then n else 1

unfoldable pub from_env : Option ℕ → Option ℕ → Option ℕ → Option ℕ → RateLimiter
from_env rate_max replica_count rate_window rate_max_ips =
    new (max (or_else default_max rate_max / replicas replica_count) 1)
      (or_else default_window rate_window) (or_else default_max_ips rate_max_ips)

unfoldable pub keep_live : ℕ → ℕ → List ℕ → Option (List ℕ)
keep_live window now timestamps = elim (retain_live window now timestamps) [
  | [] ↦ none
  | t ∷ ts ↦ some (t ∷ ts)
]

unfoldable pub evict_expired : ℕ → RateLimiter → RateLimiter
evict_expired now l = record l { requests = retain (λ _ ts. keep_live l.window now ts) l.requests }

pub contains : List RateKey → RateKey → Bool
contains [] key = false
contains (k ∷ ks) key = if same_key k key then true else contains ks key

-- `last`
pub last : List ℕ → Option ℕ
last [] = none
last (t ∷ []) = some t
last (t ∷ u ∷ ts) = last (u ∷ ts)

-- The keys that may be removed, each with its last request.
pub candidates : List RateKey → DashMap RateKey (List ℕ) → List (RateKey × ℕ)
candidates keep [] = []
candidates keep ((key, timestamps) ∷ m) =
    let rest = candidates keep m in
    if contains keep key
    then rest
    else elim (last timestamps) [ none ↦ rest | some t ↦ (key, t) ∷ rest ]

-- `sort_by_key(|(_, t)| *t)`, which is stable.
pub insert_by_time : RateKey × ℕ → List (RateKey × ℕ) → List (RateKey × ℕ)
insert_by_time e [] = e ∷ []
insert_by_time e (f ∷ fs) =
    let rest = insert_by_time e fs in if leb e.1 f.1 then e ∷ f ∷ fs else f ∷ rest

pub sort_by_time : List (RateKey × ℕ) → List (RateKey × ℕ)
sort_by_time [] = []
sort_by_time (e ∷ es) = insert_by_time e (sort_by_time es)

pub remove_all : List (RateKey × ℕ) → DashMap RateKey (List ℕ) → DashMap RateKey (List ℕ)
remove_all [] m = m
remove_all (e ∷ es) m = remove_all es (remove m e.0)

unfoldable pub shrink_to_cap : List RateKey → RateLimiter → RateLimiter
shrink_to_cap keep l =
    let overflow = len l.requests - l.max_ips in
    let oldest = take overflow (sort_by_time (candidates keep l.requests)) in
    if overflow == 0 then l else record l { requests = remove_all oldest l.requests }

unfoldable pub maybe_sweep : ℕ → RateLimiter → RateLimiter
maybe_sweep now l =
    let counted = record l { hits = (l.hits + 1) % 2 ^ 64 } in
    let evicted = evict_expired now counted in
    if l.hits % sweep_every == 0
    then (if ltb l.max_ips (len evicted.requests) then shrink_to_cap [] evicted else evicted)
    else counted

unfoldable pub enforce_cap : ℕ → List RateKey → RateLimiter → RateLimiter
enforce_cap now keep l =
    let evicted = evict_expired now l in
    if ltb l.max_ips (len l.requests)
    then (if ltb l.max_ips (len evicted.requests) then shrink_to_cap keep evicted else evicted)
    else l

-- The loop over the keys: the keys before the one that is over the limit have counted the request.
unfoldable pub admit_keys :
    ℕ → ℕ → ℕ → List RateKey → DashMap RateKey (List ℕ) → DashMap RateKey (List ℕ) × Bool
admit_keys limit window now [] m = (m, true)
admit_keys limit window now (key ∷ keys) m =
    let live = retain_live window now (or_default [] (get m key)) in
    let rest = admit_keys limit window now keys (put m key (live ++ now ∷ [])) in
    if leb limit (length live) then (put m key live, false) else rest

-- `sweep`, `now` and `cap` are the readings of the clock in `maybe_sweep`, in `check` itself and in
-- `enforce_cap`.
unfoldable pub check : ℕ → ℕ → ℕ → RiskIdentity → RateLimiter → RateLimiter × Bool
check sweep now cap identity l =
    let swept = maybe_sweep sweep l in
    let keys = keys_of identity in
    let tried = admit_keys swept.max_requests swept.window now keys swept.requests in
    let counted = record swept { requests = tried.0 } in
    if tried.1 then (enforce_cap cap keys counted, true) else (counted, false)
