-- ===== src/Connection/Active/Slots.antt =====
-- The slots that src/connection.rs counts are those that are held.
use ferroada.Prelude.{
  ◌∷◌, ℕ, ◌+◌, ◌≤◌, ◌<◌, ◌≡◌, ◌^◌, [], arith, Option, none, some, max, if◌then◌else◌, refl,
}
use ferroada.Net.{SocketAddr, addr_eq}
use ferroada.DashMap.{DashMap, len}
use ferroada.Connection.Active.{
  ActiveConnectionState, new_state, evict_expired_pending, reserve_pending, activate, drop_guard,
  retain_pending, fetch_sub, increment,
}
use ferroada.DashMap.Laws.{len-put, len-remove}

-- The state and the number of guards that are alive.
pub data Reached (limit : ℕ) : ActiveConnectionState → ℕ → Type 0 where
  fresh : Reached limit (new_state limit) 0
  reserved :
      {s : ActiveConnectionState} {guards : ℕ} (evict now : ℕ) (addr : SocketAddr)
      → Reached limit s guards
      → Reached limit (reserve_pending evict now addr s).0 guards
  activated :
      {s : ActiveConnectionState} {guards : ℕ} (now : ℕ) (addr : Option SocketAddr)
      → Reached limit s guards
      → Reached limit
          (activate now addr s).0
          (if (activate now addr s).1 then guards + 1 else guards)
  dropped :
      {s : ActiveConnectionState} {guards : ℕ}
      → Reached limit s (guards + 1)
      → Reached limit (drop_guard s) guards

pub record IsCounted (guards : ℕ) (s : ActiveConnectionState) : Type 0 where
  pub held : s.current ≡ len s.pending + guards
  pub below : s.current ≤ s.max_active
  pub small : s.max_active < 2 ^ 64

fetch_sub_lem : (n : ℕ) → 0 < n → n < 2 ^ 64 → fetch_sub n + 1 ≡ n
unfolding fetch_sub
fetch_sub_lem n h k = ground arith

retain_pending_lem :
    (now ttl : ℕ) (m : DashMap SocketAddr ℕ) (current guards : ℕ)
    → current ≡ len m + guards
    → current < 2 ^ 64
    → ((retain_pending now ttl m current).1 ≡ len (retain_pending now ttl m current).0 + guards)
      × ((retain_pending now ttl m current).1 ≤ current)
unfolding retain_pending
retain_pending_lem now ttl [] current guards e k = (e, omega arith)
retain_pending_lem now ttl ((addr, accepted) ∷ m) current guards e k = ground (
  arith,
  retain_pending_lem now ttl m current (guards + 1),
  retain_pending_lem now ttl m (fetch_sub current) guards,
  fetch_sub_lem current,
)

evict-IsCounted :
    {guards : ℕ} {s : ActiveConnectionState} (now : ℕ)
    → IsCounted guards s
    → IsCounted guards (evict_expired_pending now s)
unfolding evict_expired_pending
evict-IsCounted {guards = guards} {s = s} now c =
    let kept = retain_pending_lem now s.pending_ttl s.pending s.current guards in
    record {
      held = ground (arith, kept, c.held, c.below, c.small);
      below = ground (arith, kept, c.held, c.below, c.small);
      small = c.small;
    }

reserve_pending-IsCounted :
    {guards : ℕ} {s : ActiveConnectionState} (evict now : ℕ) (addr : SocketAddr)
    → IsCounted guards s
    → IsCounted guards (reserve_pending evict now addr s).0
unfolding reserve_pending increment
reserve_pending-IsCounted {guards} {s} evict now addr c =
    let e = evict_expired_pending evict s in
    let k = evict-IsCounted {guards = guards} {s = s} evict c in
    ground
      (arith, k.held, k.below, k.small, len-put e.pending addr now, fetch_sub_lem (e.current + 1))

activate-IsCounted :
    {guards : ℕ} {s : ActiveConnectionState} (now : ℕ) (addr : Option SocketAddr)
    → IsCounted guards s
    → IsCounted (if (activate now addr s).1 then guards + 1 else guards) (activate now addr s).0
unfolding activate increment
activate-IsCounted {guards} {s} now none c =
    let k = evict-IsCounted {guards = guards} {s = s} now c in
    ground (arith, k.held, k.below, k.small)
activate-IsCounted {guards} {s} now (some addr) c =
    let e = evict_expired_pending now s in
    let k = evict-IsCounted {guards = guards} {s = s} now c in
    ground (arith, k.held, k.below, k.small, len-remove e.pending addr)

drop_guard-IsCounted :
    {guards : ℕ} {s : ActiveConnectionState}
    → IsCounted (guards + 1) s
    → IsCounted guards (drop_guard s)
unfolding drop_guard
drop_guard-IsCounted {guards} {s} c =
    ground (arith, c.held, c.below, c.small, fetch_sub_lem s.current)

Reached-IsCounted :
    {limit guards : ℕ} {s : ActiveConnectionState}
    → limit < 2 ^ 64
    → Reached limit s guards
    → IsCounted guards s
unfolding new_state
Reached-IsCounted small fresh = ground arith
Reached-IsCounted small (reserved evict now addr r) =
    reserve_pending-IsCounted evict now addr (Reached-IsCounted small r)
Reached-IsCounted small (activated now addr r) =
    activate-IsCounted now addr (Reached-IsCounted small r)
Reached-IsCounted small (dropped r) = drop_guard-IsCounted (Reached-IsCounted small r)

-- The limit is the one that the state began with.
Reached-max_active :
    {limit guards : ℕ} {s : ActiveConnectionState}
    → Reached limit s guards
    → s.max_active ≡ max limit 1
unfolding new_state reserve_pending activate increment drop_guard evict_expired_pending
Reached-max_active fresh = refl
Reached-max_active (reserved {s} evict now addr r) = ground (arith, Reached-max_active r)
Reached-max_active (activated {s} now none r) = ground (arith, Reached-max_active r)
Reached-max_active (activated {s} now (some addr) r) = ground (arith, Reached-max_active r)
Reached-max_active (dropped r) = Reached-max_active r

-- Whatever the order in which connections are accepted, taken up, expire and close, the counter is
-- the number of the pending ones and of the guards that are alive, which together are within the
-- limit (of one at least).
pub Reached-slots :
    (limit guards : ℕ) (s : ActiveConnectionState)
    → limit < 2 ^ 64
    → Reached limit s guards
    → (s.current ≡ len s.pending + guards) × (len s.pending + guards ≤ max limit 1)
Reached-slots limit guards s small r =
    let c = Reached-IsCounted small r in
    let limits = Reached-max_active r in ground (arith, c.held, c.below, limits)
