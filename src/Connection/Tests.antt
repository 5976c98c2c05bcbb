-- ===== src/Connection/Tests.antt =====
-- Two connections of one address, and a slot that is reserved and taken up.
use ferroada.Prelude.{
  ℕ, ◌≡◌, refl, ◌≤◌, ◌<◌, ◌⊎◌, true, false, max, length, [], arith, some, ◌+◌, ◌-◌,
}
use ferroada.Net.{IpAddr, SocketAddr, addr_eq}
use ferroada.DashMap.{len, get, has, put, retain}
use ferroada.Window.{recent, drop_expired}
use ferroada.Connection.Rate.{
  ConnectionRateFilter, new, check, count_check, admit, evict_expired, keep_live,
}
use ferroada.Connection.Rate.Bounds.{queue}
use ferroada.Connection.Rate.History.{History, record_attempt, times, all_times}
use ferroada.Connection.Rate.History.Reached.{Reached}
use ferroada.Connection.Rate.History.Decisions.{check-rate, check-refused, Reached-bounds}
use ferroada.Connection.Active.{
  ActiveConnectionState, new_state, reserve_pending, activate, evict_expired_pending, increment,
  retain_pending,
}
use ferroada.Connection.Active.Slots as Slots
use ferroada.Connection.Active.Waiting.{Meanwhile, activate-reserve_pending}

abbrev caller : IpAddr
caller = IpAddr.v4 7

abbrev once : ConnectionRateFilter
once = (check true 3 3 caller (new 1 10 5 5)).0

abbrev once_history : History
once_history = record_attempt (check true 3 3 caller (new 1 10 5 5)).1 caller 3 []

once_reached : Reached (new 1 10 5 5) once once_history 3
once_reached = Reached.called true 3 3 caller Reached.fresh (omega arith) (omega arith)

-- The first is accepted, a second within the window is not, and one after it is.
accepts_later : (check true 13 13 caller once).1 ≡ true
unfolding new check count_check evict_expired keep_live admit get has drop_expired put retain
accepts_later = refl

refuses_within : (check true 12 12 caller once).1 ≡ false
unfolding new check count_check evict_expired keep_live admit get has drop_expired put retain
refuses_within = refl

check-rate_example :
    (recent 10 13 (times caller once_history) < max 1 1)
    × (recent 10 13 (all_times once_history) < max 5 1)
check-rate_example =
    check-rate 1 10 5 5 once once_history 3 true 13 13 caller once_reached (omega arith)
      (omega arith) accepts_later

check-refused_example :
    (true ≡ false)
    ⊎ (max 5 1 ≤ recent 10 12 (all_times once_history))
    ⊎ ((max 5 1 ≤ len once.attempts) × (recent 10 12 (times caller once_history) ≡ 0))
    ⊎ (max 1 1 ≤ recent 10 12 (times caller once_history))
check-refused_example =
    check-refused 1 10 5 5 once once_history 3 true 12 12 caller once_reached (omega arith)
      (omega arith) refuses_within

Reached-bounds_example :
    (len once.attempts ≤ max 5 1)
    × (length (queue once caller) ≤ max 1 1)
    × (length once.global_attempts ≤ max 5 1)
Reached-bounds_example = Reached-bounds 1 10 5 5 once once_history 3 caller once_reached

abbrev peer : SocketAddr
peer = SocketAddr.v4 7 443

abbrev taken : ActiveConnectionState
taken = (reserve_pending 5 5 peer (new_state 1)).0

Reached-slots_example : (taken.current ≡ len taken.pending + 0) × (len taken.pending + 0 ≤ max 1 1)
Reached-slots_example =
    Slots.Reached-slots 1 0 taken (omega arith)
      (Slots.Reached.reserved 5 5 peer Slots.Reached.fresh)

reserves : (reserve_pending 5 5 peer (new_state 1)).1 ≡ true
unfolding new_state reserve_pending increment evict_expired_pending retain_pending has put
reserves = refl

ttl_live : 9 - 5 < (new_state 1).pending_ttl
unfolding new_state
ttl_live = omega arith

abbrev stranger : SocketAddr
stranger = SocketAddr.v4 8 443

-- Another address asks for the only slot and does not get it.
abbrev crowded : ActiveConnectionState
crowded = (reserve_pending 6 6 stranger taken).0

strangers : addr_eq.beq stranger peer ≡ false
strangers = refl

ttl_at : (now : ℕ) → now < 65 → now - 5 < taken.pending_ttl
unfolding new_state reserve_pending increment evict_expired_pending retain_pending has put
ttl_at now h = omega (arith, h)

activate-reserve_pending_example :
    ((activate 9 (some peer) crowded).1 ≡ true)
    × ((activate 9 (some peer) crowded).0.current ≡ (evict_expired_pending 9 crowded).current)
activate-reserve_pending_example =
    activate-reserve_pending 5 5 9 peer (new_state 1) crowded reserves
      (Meanwhile.reserved 6 6 stranger Meanwhile.nothing (ttl_at 6 (omega arith)) strangers)
      ttl_live
