-- ===== src/Connection/Rate/History/Decisions.antt =====
-- What `check` of src/connection.rs decides, in terms of the connections accepted before.
use ferroada.Prelude.{
  ℕ, ◌+◌, ◌≤◌, ◌<◌, ◌≡◌, ◌⊎◌, inl, inr, List, length, Bool, true, false, arith, max, refl, ◌%◌, ◌^◌,
  none,
}
use ferroada.Net.{IpAddr, ip_eq}
use ferroada.Connection.Rate.{
  ConnectionRateFilter, new, check, count_check, evict_expired, admit, keep_live,
}
use ferroada.Connection.Rate.Bounds.{
  IsBounded, KeepsLimits, queue, check-KeepsLimits, check-IsBounded, new-IsBounded, queue-IsShort,
  count_check-global,
}
use ferroada.Connection.Rate.History.Reached.{
  Reached, called, Reached-IsTracking, fresh, new-IsTracking, pruned, pruned-IsTracking,
  accepted_lem,
}
use ferroada.Connection.Rate.History.{
  History, times, all_times, IsQueueOf, later-IsTracking, count_check-IsTracking,
  queue-evict_expired,
}
use ferroada.Window.{recent, drop_expired}
use ferroada.DashMap.{len, has, get}
use ferroada.Window.Laws.{
  recent-drop_expired, recent-le, recent-drop_expired-le, length-drop_expired-IsOrdered,
}
use ferroada.DashMap.Laws.{IsUnique, len-retain-le, has-get}

Reached-limits :
    {start f : ConnectionRateFilter} {h : History} {clock : ℕ}
    → Reached start f h clock
    → KeepsLimits start f
Reached-limits fresh = (refl, refl, refl, refl)
Reached-limits (called {f} {h} locked now sweep ip r le ge) =
    let before = Reached-limits r in
    let here = check-KeepsLimits locked now sweep ip f in ground arith

Reached-IsBounded :
    {start f : ConnectionRateFilter} {h : History} {clock : ℕ}
    → IsBounded start
    → Reached start f h clock
    → IsBounded f
Reached-IsBounded b fresh = b
Reached-IsBounded b (called {f} {h} locked now sweep ip r le ge) =
    check-IsBounded locked now sweep ip f (Reached-IsBounded b r)

-- A queue pruned at `now` is no longer than what it counts later on is, and counts the same.
counted-le :
    {window since last : ℕ} {hist q : List ℕ} (now : ℕ)
    → now ≤ since
    → IsQueueOf window since last hist q
    → recent window since hist ≤ length (drop_expired window now q)
counted-le {window} {since} {last} {hist} {q} now le k =
    let same = k.counting since (omega arith) in
    omega (
      arith,
      same,
      recent-drop_expired window now since q le,
      recent-le window since (drop_expired window now q),
    )

len-count_check-le :
    (sweep : ℕ) (f : ConnectionRateFilter) → len (count_check sweep f).attempts ≤ len f.attempts
unfolding count_check evict_expired
len-count_check-le sweep f =
    ground (arith, len-retain-le (λ _ q. keep_live f.window sweep q) f.attempts)

recent-swept-le :
    (sweep t : ℕ) (ip : IpAddr) (f : ConnectionRateFilter)
    → IsUnique f.attempts
    → recent f.window t (queue (count_check sweep f) ip) ≤ recent f.window t (queue f ip)
unfolding count_check
recent-swept-le sweep t ip f u =
    let counted = record f { checks = (f.checks + 1) % 2 ^ 64 } in
    ground (
      arith,
      queue-evict_expired sweep counted ip u,
      recent-drop_expired-le f.window sweep t (queue f ip),
    )

-- What was true of the test that a refused call failed.
refused_lem :
    (locked : Bool) (now sweep : ℕ) (ip : IpAddr) (f : ConnectionRateFilter)
    → (check locked now sweep ip f).1 ≡ false
    → (locked ≡ false)
      ⊎ (f.max_global_attempts ≤ length (drop_expired f.window now f.global_attempts))
      ⊎ ((f.max_ips ≤ len f.attempts)
          × (has (count_check sweep (pruned now f)).attempts ip ≡ false))
      ⊎ (f.max_attempts
          ≤ length (drop_expired f.window now (queue (count_check sweep (pruned now f)) ip)))
unfolding check admit
refused_lem false now sweep ip f h = inl refl
refused_lem true now sweep ip f h =
    let limits = (count_check-global sweep (pruned now f)).1 in
    let size = len-count_check-le sweep (pruned now f) in ground arith

recent-unknown :
    (window t : ℕ) (f : ConnectionRateFilter) (ip : IpAddr)
    → get f.attempts ip ≡ none
    → recent window t (queue f ip) ≡ 0
unfolding recent
recent-unknown window t f ip h = ground (arith, h)

-- From a new filter on, `check` accepts a connection only if fewer than the limit of the address and
-- fewer than the global limit were accepted in the window before it, sweeps or not. The two readings
-- of the clock follow each other and those of the calls before.
pub check-rate :
    (max_attempts window max_ips max_global : ℕ) (f : ConnectionRateFilter) (h : History)
    (clock : ℕ) (locked : Bool) (now sweep : ℕ) (ip : IpAddr)
    → Reached (new max_attempts window max_ips max_global) f h clock
    → clock ≤ now
    → now ≤ sweep
    → (check locked now sweep ip f).1 ≡ true
    → (recent window sweep (times ip h) < max max_attempts 1)
      × (recent window sweep (all_times h) < max max_global 1)
unfolding new
check-rate m w i g f h clock locked now sweep ip r le ge accepted =
    let k =
      later-IsTracking sweep now (omega arith) le (Reached-IsTracking (new-IsTracking m w i g) r) in
    let s =
      count_check-IsTracking {f = pruned now f} sweep (omega arith) (pruned-IsTracking now ge k) in
    let (global, mine) = accepted_lem locked now sweep ip f accepted in
    let limits = Reached-limits r in
    let same = count_check-global sweep (pruned now f) in
    let window_now : (count_check sweep (pruned now f)).window ≡ f.window = same.1.2 in
    let few = counted-le now ge (s.ips ip) in
    let all_few = counted-le now ge k.global in
    ground (arith, limits, window_now, few, all_few, mine, global)

-- And it refuses only when the lock is poisoned, when as many as the global limit were accepted in
-- the window, when the map is full and nothing of this address is in the window, or when as many as
-- the limit of the address were.
pub check-refused :
    (max_attempts window max_ips max_global : ℕ) (f : ConnectionRateFilter) (h : History)
    (clock : ℕ) (locked : Bool) (now sweep : ℕ) (ip : IpAddr)
    → Reached (new max_attempts window max_ips max_global) f h clock
    → clock ≤ now
    → now ≤ sweep
    → (check locked now sweep ip f).1 ≡ false
    → (locked ≡ false)
      ⊎ (max max_global 1 ≤ recent window now (all_times h))
      ⊎ ((max max_ips 1 ≤ len f.attempts) × (recent window sweep (times ip h) ≡ 0))
      ⊎ (max max_attempts 1 ≤ recent window now (times ip h))
unfolding new has get
check-refused m w i g f h clock locked now sweep ip r le ge refused =
    let before = later-IsTracking now now le le (Reached-IsTracking (new-IsTracking m w i g) r) in
    let k = later-IsTracking sweep now ge (omega arith) before in
    let s =
      count_check-IsTracking {f = pruned now f} sweep (omega arith) (pruned-IsTracking now ge k) in
    let limits = Reached-limits r in
    let window_now : (count_check sweep (pruned now f)).window ≡ f.window =
      (count_check-global sweep (pruned now f)).1.2 in
    let ordered = length-drop_expired-IsOrdered f.window now f.global_attempts k.global.ordered in
    let ordered_ip = length-drop_expired-IsOrdered f.window now _ (s.ips ip).ordered in
    let counts = before.global.counting now (omega arith) in
    let counts_ip = (before.ips ip).counting now (omega arith) in
    let fewer = recent-swept-le sweep now ip (pruned now f) before.unique in
    let counts_swept = (s.ips ip).counting sweep (omega arith) in
    elim (refused_lem locked now sweep ip f refused) [
      | inl poisoned ↦ inl poisoned
      | inr (inl busy) ↦ inr (inl (ground (arith, limits, busy, ordered, counts)))
      | inr (inr (inl (full, unknown))) ↦
          let new_ip = has-get (count_check sweep (pruned now f)).attempts ip unknown in
          let none_recent =
            recent-unknown f.window sweep (count_check sweep (pruned now f)) ip new_ip in
          inr (
            inr (
              inl (
                ground (arith, limits, full),
                ground (arith, limits, window_now, none_recent, counts_swept),
              )))
      | inr (inr (inr many)) ↦
          inr (inr (inr (ground (arith, limits, many, ordered_ip, counts_ip, fewer))))
    ]

-- The map, the queues and the global queue of every filter that calls lead to are within the limits.
pub Reached-bounds :
    (max_attempts window max_ips max_global : ℕ) (f : ConnectionRateFilter) (h : History)
    (clock : ℕ) (ip : IpAddr)
    → Reached (new max_attempts window max_ips max_global) f h clock
    → (len f.attempts ≤ max max_ips 1)
      × (length (queue f ip) ≤ max max_attempts 1)
      × (length f.global_attempts ≤ max max_global 1)
unfolding new
Reached-bounds m w i g f h clock ip r =
    let b = Reached-IsBounded (new-IsBounded m w i g) r in
    let limits = Reached-limits r in ground (arith, limits, b.ips, b.global, queue-IsShort f ip b)
