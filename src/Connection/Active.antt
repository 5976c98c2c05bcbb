-- ===== src/Connection/Active.antt =====
-- `ActiveConnectionState` of src/connection.rs: the slots of the connections that are open, and of
-- those accepted by the filter that the application has not taken up yet. A guard is a slot that the
-- caller holds until it drops it.
pub mod Slots
pub mod Waiting
use ferroada.Prelude.{
  ℕ, ◌+◌, ◌-◌, ◌*◌, ◌%◌, ◌^◌, max, ltb, List, [], ◌∷◌, Bool, true, false, not, Option, none, some,
  if◌then◌else◌,
}
use ferroada.Net.{SocketAddr, addr_eq}
use ferroada.DashMap.{DashMap, has, put, remove}

pub record ActiveConnectionState : Type 0 where
  pub current : ℕ
  pub max_active : ℕ
  pub pending : DashMap SocketAddr ℕ
  pub pending_ttl : ℕ

-- 65 seconds in nanoseconds.
unfoldable pub new_state : ℕ → ActiveConnectionState
new_state max_active = record {
  current = 0;
  max_active = max max_active 1;
  pending = [];
  pending_ttl = 65 * 10 ^ 9;
}

-- `fetch_sub(1)` on an `AtomicUsize`.
unfoldable pub fetch_sub : ℕ → ℕ
fetch_sub current = (current + (2 ^ 64 - 1)) % 2 ^ 64

-- `fetch_update`: adds one below the maximum.
unfoldable pub increment : ActiveConnectionState → ActiveConnectionState × Bool
increment s =
    if ltb s.current s.max_active then (record s { current = s.current + 1 }, true) else (s, false)

-- `retain` with the closure that gives a slot back for each entry that it drops.
unfoldable pub retain_pending : ℕ → ℕ → DashMap SocketAddr ℕ → ℕ → DashMap SocketAddr ℕ × ℕ
retain_pending now ttl [] current = ([], current)
retain_pending now ttl ((addr, accepted) ∷ m) current =
    let keep = ltb (now - accepted) ttl in
    let rest = retain_pending now ttl m (if keep then current else fetch_sub current) in
    (if keep then (addr, accepted) ∷ rest.0 else rest.0, rest.1)

unfoldable pub evict_expired_pending : ℕ → ActiveConnectionState → ActiveConnectionState
evict_expired_pending now s =
    let kept = retain_pending now s.pending_ttl s.pending s.current in
    record s { pending = kept.0; current = kept.1 }

-- `evict` and `now` are the two readings of the clock. A second reservation of an address replaces
-- the first, whose slot it gives back.
unfoldable pub reserve_pending :
    ℕ → ℕ → SocketAddr → ActiveConnectionState → ActiveConnectionState × Bool
reserve_pending evict now addr s =
    let grown = increment (evict_expired_pending evict s) in
    let g = grown.0 in
    let current = if has g.pending addr then fetch_sub g.current else g.current in
    if grown.1
    then (record g { pending = put g.pending addr now; current = current }, true)
    else (g, false)

-- The second component says whether there is a guard.
unfoldable pub activate :
    ℕ → Option SocketAddr → ActiveConnectionState → ActiveConnectionState × Bool
activate now none s = increment (evict_expired_pending now s)
activate now (some addr) s =
    let e = evict_expired_pending now s in
    if has e.pending addr then (record e { pending = remove e.pending addr }, true) else increment e

-- `ActiveConnectionGuard::drop`
unfoldable pub drop_guard : ActiveConnectionState → ActiveConnectionState
drop_guard s = record s { current = fetch_sub s.current }
