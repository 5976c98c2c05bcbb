-- ===== src/Connection/Active/Waiting.antt =====
-- A reservation of src/connection.rs waits for its connection, whatever the others do meanwhile.
use ferroada.Prelude.{ℕ, ◌-◌, ◌<◌, ◌≡◌, true, false, arith, none, some, [], ◌∷◌, refl}
use ferroada.Net.{SocketAddr, addr_eq}
use ferroada.DashMap.{DashMap, get, has}
use ferroada.DashMap.Laws.{get-put, get-has, get-remove_other}
use ferroada.Connection.Active.{
  ActiveConnectionState, evict_expired_pending, reserve_pending, activate, drop_guard,
  retain_pending, fetch_sub, increment,
}

-- What happens between a reservation at `since` and its connection: others are reserved, taken up and
-- closed, and each sweep comes within the time to live.
pub data Meanwhile (since : ℕ) (addr : SocketAddr) (s : ActiveConnectionState)
    : ActiveConnectionState → Type 0 where
  nothing : Meanwhile since addr s s
  reserved :
      {t : ActiveConnectionState} (evict now : ℕ) (other : SocketAddr)
      → Meanwhile since addr s t
      → evict - since < s.pending_ttl
      → addr_eq.beq other addr ≡ false
      → Meanwhile since addr s (reserve_pending evict now other t).0
  activated :
      {t : ActiveConnectionState} (now : ℕ) (other : SocketAddr)
      → Meanwhile since addr s t
      → now - since < s.pending_ttl
      → addr_eq.beq other addr ≡ false
      → Meanwhile since addr s (activate now (some other) t).0
  unnamed :
      {t : ActiveConnectionState} (now : ℕ)
      → Meanwhile since addr s t
      → now - since < s.pending_ttl
      → Meanwhile since addr s (activate now none t).0
  dropped :
      {t : ActiveConnectionState} → Meanwhile since addr s t → Meanwhile since addr s (drop_guard t)

-- The reservation is there, and its time to live is the same.
record IsWaiting (since ttl : ℕ) (addr : SocketAddr) (s : ActiveConnectionState) : Type 0 where
  there : get s.pending addr ≡ some since
  lives : s.pending_ttl ≡ ttl

kept_pending :
    (now ttl : ℕ) (m : DashMap SocketAddr ℕ) (current since : ℕ) (addr : SocketAddr)
    → get m addr ≡ some since
    → now - since < ttl
    → get (retain_pending now ttl m current).0 addr ≡ some since
unfolding retain_pending get
kept_pending now ttl [] current since addr h live = cc
kept_pending now ttl ((a, u) ∷ m) current since addr h live = ground (
  arith,
  h,
  live,
  kept_pending now ttl m current since addr,
  kept_pending now ttl m (fetch_sub current) since addr,
)

module _ {since ttl : ℕ} {addr : SocketAddr} where
  evict-IsWaiting :
      (now : ℕ) (s : ActiveConnectionState)
      → IsWaiting since ttl addr s
      → now - since < ttl
      → IsWaiting since ttl addr (evict_expired_pending now s)
  unfolding evict_expired_pending
  evict-IsWaiting now s k live = record {
    there =
        kept_pending now s.pending_ttl s.pending s.current since addr k.there
          (omega (arith, live, k.lives));
    lives = k.lives;
  }

  reserve-IsWaiting :
      (evict now : ℕ) (other : SocketAddr) (s : ActiveConnectionState)
      → IsWaiting since ttl addr s
      → evict - since < ttl
      → addr_eq.beq other addr ≡ false
      → IsWaiting since ttl addr (reserve_pending evict now other s).0
  unfolding reserve_pending increment
  reserve-IsWaiting evict now other s k live apart =
      let e = evict_expired_pending evict s in
      let w = evict-IsWaiting evict s k live in
      record {
        there = ground (arith, w.there, apart, get-put e.pending other addr now);
        lives = ground (arith, w.lives);
      }

  activate-IsWaiting :
      (now : ℕ) (other : SocketAddr) (s : ActiveConnectionState)
      → IsWaiting since ttl addr s
      → now - since < ttl
      → addr_eq.beq other addr ≡ false
      → IsWaiting since ttl addr (activate now (some other) s).0
  unfolding activate increment
  activate-IsWaiting now other s k live apart =
      let e = evict_expired_pending now s in
      let w = evict-IsWaiting now s k live in
      record {
        there = ground (arith, w.there, apart, get-remove_other e.pending other addr apart);
        lives = ground (arith, w.lives);
      }

  unnamed-IsWaiting :
      (now : ℕ) (s : ActiveConnectionState)
      → IsWaiting since ttl addr s
      → now - since < ttl
      → IsWaiting since ttl addr (activate now none s).0
  unfolding activate increment
  unnamed-IsWaiting now s k live =
      let w = evict-IsWaiting now s k live in
      record { there = ground (arith, w.there); lives = ground (arith, w.lives) }

  drop_guard-IsWaiting :
      (s : ActiveConnectionState)
      → IsWaiting since ttl addr s
      → IsWaiting since ttl addr (drop_guard s)
  unfolding drop_guard
  drop_guard-IsWaiting s k = record { there = k.there; lives = k.lives }

Meanwhile-IsWaiting :
    {since : ℕ} {addr : SocketAddr} {s t : ActiveConnectionState}
    → IsWaiting since s.pending_ttl addr s
    → Meanwhile since addr s t
    → IsWaiting since s.pending_ttl addr t
Meanwhile-IsWaiting k nothing = k
Meanwhile-IsWaiting k (reserved {t} evict now other m live apart) =
    reserve-IsWaiting evict now other t (Meanwhile-IsWaiting k m) live apart
Meanwhile-IsWaiting k (activated {t} now other m live apart) =
    activate-IsWaiting now other t (Meanwhile-IsWaiting k m) live apart
Meanwhile-IsWaiting k (unnamed {t} now m live) =
    unnamed-IsWaiting now t (Meanwhile-IsWaiting k m) live
Meanwhile-IsWaiting k (dropped {t} m) = drop_guard-IsWaiting t (Meanwhile-IsWaiting k m)

reserved-IsWaiting :
    (evict now : ℕ) (addr : SocketAddr) (s : ActiveConnectionState)
    → (reserve_pending evict now addr s).1 ≡ true
    → IsWaiting now s.pending_ttl addr (reserve_pending evict now addr s).0
unfolding reserve_pending increment evict_expired_pending
reserved-IsWaiting evict now addr s ok =
    let kept = retain_pending evict s.pending_ttl s.pending s.current in
    record {
      there = ground (arith, ok, get-put kept.0 addr addr now, addr_eq.beq_iff addr addr);
      lives = ground (arith, ok);
    }

activate_lem :
    (now : ℕ) (addr : SocketAddr) (s : ActiveConnectionState)
    → has (evict_expired_pending now s).pending addr ≡ true
    → ((activate now (some addr) s).1 ≡ true)
      × ((activate now (some addr) s).0.current ≡ (evict_expired_pending now s).current)
unfolding activate
activate_lem now addr s h = ground (arith, h)

-- A connection that was reserved gets its guard when it is taken up within the time to live of its
-- reservation, even at the limit, and takes no further slot for it. Meanwhile connections of other
-- addresses may be reserved, taken up and closed in any order, with sweeps within that time.
pub activate-reserve_pending :
    (evict now later : ℕ) (addr : SocketAddr) (s t : ActiveConnectionState)
    → (reserve_pending evict now addr s).1 ≡ true
    → Meanwhile now addr (reserve_pending evict now addr s).0 t
    → later - now < s.pending_ttl
    → ((activate later (some addr) t).1 ≡ true)
      × ((activate later (some addr) t).0.current ≡ (evict_expired_pending later t).current)
activate-reserve_pending evict now later addr s t ok meanwhile live =
    let r = (reserve_pending evict now addr s).0 in
    let w = reserved-IsWaiting evict now addr s ok in
    let same : IsWaiting now r.pending_ttl addr r = record { there = w.there; lives = refl } in
    let waits = Meanwhile-IsWaiting same meanwhile in
    let swept = evict-IsWaiting later t waits (omega (arith, live, w.lives)) in
    activate_lem later addr t (get-has (evict_expired_pending later t).pending addr now swept.there)
