-- ===== src/Connection/Rate/History/Reached.antt =====
-- Every filter of src/connection.rs that calls of `check` lead to, and what it decides.
use ferroada.Prelude.{
  ℕ, ◌≤◌, ◌<◌, ◌≡◌, [], length, Bool, true, false, arith, leb, not, ◌&&◌, if_both, refl,
}
use ferroada.Net.{IpAddr, ip_eq}
use ferroada.DashMap.{has, len, get}
use ferroada.Window.{drop_expired}
use ferroada.Connection.Rate.{ConnectionRateFilter, new, count_check, admit, check}
use ferroada.Connection.Rate.Bounds.{queue, count_check-global}
use ferroada.Connection.Rate.History.{
  History, IsTracking, record_attempt, times, all_times, count_check-IsTracking, admit-IsTracking,
  dropped-IsQueueOf, later-IsTracking,
}

-- The filter after any calls, the history of what they accepted, and the last clock reading. Each
-- call reads the clock where the calls before it left off, or later.
pub data Reached (start : ConnectionRateFilter) : ConnectionRateFilter → History → ℕ → Type 0 where
  fresh : Reached start start [] 0
  called :
      {f : ConnectionRateFilter} {h : History} {clock : ℕ} (locked : Bool) (now sweep : ℕ)
      (ip : IpAddr)
      → Reached start f h clock
      → clock ≤ now
      → now ≤ sweep
      → Reached start
          (check locked now sweep ip f).0
          (record_attempt (check locked now sweep ip f).1 ip now h)
          sweep

abbrev pub pruned : ℕ → ConnectionRateFilter → ConnectionRateFilter
pruned now f = record f { global_attempts = drop_expired f.window now f.global_attempts }

pub pruned-IsTracking :
    {since last : ℕ} {h : History} {f : ConnectionRateFilter} (now : ℕ)
    → now ≤ since
    → IsTracking since last h f
    → IsTracking since last h (pruned now f)
pruned-IsTracking now le k = record {
  unique = k.unique;
  ips = k.ips;
  global = dropped-IsQueueOf now le k.global;
}

check-IsTracking :
    {h : History} {f : ConnectionRateFilter} (locked : Bool) (now sweep : ℕ) (ip : IpAddr)
    → now ≤ sweep
    → IsTracking sweep now h f
    → IsTracking sweep now
        (record_attempt (check locked now sweep ip f).1 ip now h)
        (check locked now sweep ip f).0
unfolding check
check-IsTracking false now sweep ip le k = k
check-IsTracking {h} {f} true now sweep ip le k =
    let P : ConnectionRateFilter × Bool → Type 0 =
      λ r. IsTracking sweep now (record_attempt r.1 ip now h) r.0 in
    let p = pruned-IsTracking now le k in
    let swept = count_check sweep (pruned now f) in
    let s = count_check-IsTracking {f = pruned now f} sweep (omega arith) p in
    if_both P (leb f.max_global_attempts (length (pruned now f).global_attempts)) (λ _. p)
      (λ _.
        if_both P (not (has swept.attempts ip) && leb swept.max_ips (len swept.attempts)) (λ _. s)
          (λ _. admit-IsTracking {f = swept} ip le s))

-- What the two tests of an accepted call compared.
pub accepted_lem :
    (locked : Bool) (now sweep : ℕ) (ip : IpAddr) (f : ConnectionRateFilter)
    → (check locked now sweep ip f).1 ≡ true
    → (length (drop_expired f.window now f.global_attempts) < f.max_global_attempts)
      × (length (drop_expired f.window now (queue (count_check sweep (pruned now f)) ip))
          < f.max_attempts)
unfolding check admit
accepted_lem false now sweep ip f h = cc
accepted_lem true now sweep ip f h =
    let limits = (count_check-global sweep (pruned now f)).1 in ground arith

pub Reached-IsTracking :
    {start f : ConnectionRateFilter} {h : History} {clock : ℕ}
    → IsTracking 0 0 [] start
    → Reached start f h clock
    → IsTracking clock clock h f
Reached-IsTracking s fresh = s
Reached-IsTracking s (called {f} {h} locked now sweep ip r le ge) =
    later-IsTracking sweep sweep (omega arith) ge (
      check-IsTracking locked now sweep ip ge
        (later-IsTracking sweep now (omega arith) le (Reached-IsTracking s r)))

pub new-IsTracking : (m w i g : ℕ) → IsTracking 0 0 [] (new m w i g)
unfolding new times all_times get
new-IsTracking m w i g = record {
  unique = tt;
  ips = λ ip. record { counting = λ t h. refl; past = tt; ordered = tt };
  global = record { counting = λ t h. refl; past = tt; ordered = tt };
}
