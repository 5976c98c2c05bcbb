-- ===== src/RateLimit/Eviction.antt =====
-- What src/rate_limit.rs evicts: the keys of the request at hand stay, with what their windows count.
use ferroada.Prelude.{
  ℕ, ◌+◌, ◌-◌, ◌≡◌, List, [], ◌∷◌, true, false, arith, All, take, ◌∙◌, All-take, refl, Bool-cases,
  inl, ap, inr, if_both, ◌==◌, ◌%◌, ◌^◌,
}
use ferroada.DashMap.{DashMap, get, remove, len}
use ferroada.DashMap.Laws.{IsUnique, get-retain, get-remove_other, remove-IsUnique, retain-IsUnique}
use ferroada.Window.{recent, retain_live}
use ferroada.RateLimit.Key.{RateKey, key_eq, same_key, same_key_iff}
use ferroada.RateLimit.Check.{queue, IsOther}
use ferroada.RateLimit.{
  RateLimiter, maybe_sweep, enforce_cap, evict_expired, contains, candidates, sort_by_time,
  insert_by_time, remove_all, shrink_to_cap, keep_live,
}
use ferroada.Window.Laws.{recent-retain_live}

abbrev pub Requests : Type 0
Requests = DashMap RateKey (List ℕ)

abbrev IsSpared : List RateKey → RateKey × ℕ → Type 0
IsSpared keep e = contains keep e.0 ≡ false

candidates-IsSpared : (keep : List RateKey) (m : Requests) → All (IsSpared keep) (candidates keep m)
unfolding candidates
candidates-IsSpared keep [] = tt
candidates-IsSpared keep ((key, ts) ∷ m) = ground (arith, candidates-IsSpared keep m)

pub insert_by_time-All :
    (P : RateKey × ℕ → Type 0) (e : RateKey × ℕ) (es : List (RateKey × ℕ))
    → P e
    → All P es
    → All P (insert_by_time e es)
unfolding insert_by_time
insert_by_time-All P e [] p h = (p, tt)
insert_by_time-All P e (f ∷ fs) p h = ground (arith, insert_by_time-All P e fs p h.1)

pub sort_by_time-All :
    (P : RateKey × ℕ → Type 0) (es : List (RateKey × ℕ)) → All P es → All P (sort_by_time es)
unfolding sort_by_time
sort_by_time-All P [] h = tt
sort_by_time-All P (e ∷ es) h =
    insert_by_time-All P e (sort_by_time es) h.0 (sort_by_time-All P es h.1)

-- A key of the list is not one that the list does not contain.
contains-IsOther :
    (keep : List RateKey) (k j : RateKey)
    → contains keep k ≡ true
    → contains keep j ≡ false
    → IsOther j k
contains-IsOther keep k j hk hj = elim (Bool-cases (same_key j k)) [
  | inl same ↦
      let e : contains keep j ≡ contains keep k = ap (contains keep) ((same_key_iff j k).0 same) in
      cc
  | inr other ↦ other
]

remove_all-get :
    (keep : List RateKey) (k : RateKey) (es : List (RateKey × ℕ)) (m : Requests)
    → contains keep k ≡ true
    → All (IsSpared keep) es
    → get (remove_all es m) k ≡ get m k
unfolding remove_all
remove_all-get keep k [] m h a = refl
remove_all-get keep k (e ∷ es) m h a =
    remove_all-get keep k es (remove m e.0) h a.1
    ∙ get-remove_other m e.0 k (contains-IsOther keep k e.0 h a.0)

shrink_to_cap-get :
    (keep : List RateKey) (k : RateKey) (l : RateLimiter)
    → contains keep k ≡ true
    → get (shrink_to_cap keep l).requests k ≡ get l.requests k
unfolding shrink_to_cap
shrink_to_cap-get keep k l h =
    let overflow = len l.requests - l.max_ips in
    let spared =
      All-take (IsSpared keep) overflow (sort_by_time (candidates keep l.requests))
        (sort_by_time-All (IsSpared keep) _ (candidates-IsSpared keep l.requests)) in
    let same =
      remove_all-get keep k (take overflow (sort_by_time (candidates keep l.requests))) l.requests h
        spared in
    ground (arith, same)

queue-evict_expired :
    (now : ℕ) (l : RateLimiter) (k : RateKey)
    → IsUnique l.requests
    → queue (evict_expired now l).requests k ≡ retain_live l.window now (queue l.requests k)
unfolding evict_expired keep_live retain_live
queue-evict_expired now l k u = ground (arith, get-retain (keep_live l.window now) l.requests k u)

pub enforce_cap-recent :
    (cap : ℕ) (keep : List RateKey) (k : RateKey) (l : RateLimiter)
    → contains keep k ≡ true
    → IsUnique l.requests
    → recent l.window cap (queue (enforce_cap cap keep l).requests k)
      ≡ recent l.window cap (queue l.requests k)
unfolding enforce_cap
enforce_cap-recent cap keep k l h u =
    let evicted = queue-evict_expired cap l k u in
    let shrunk = shrink_to_cap-get keep k (evict_expired cap l) h in
    let live = recent-retain_live l.window cap cap (queue l.requests k) (omega arith) in
    ground (arith, evicted, shrunk, live)

remove_all-IsUnique :
    (es : List (RateKey × ℕ)) (m : Requests) → IsUnique m → IsUnique (remove_all es m)
unfolding remove_all
remove_all-IsUnique [] m u = u
remove_all-IsUnique (e ∷ es) m u = remove_all-IsUnique es _ (remove-IsUnique m e.0 u)

pub evict_expired-IsUnique :
    (now : ℕ) (l : RateLimiter) → IsUnique l.requests → IsUnique (evict_expired now l).requests
unfolding evict_expired
evict_expired-IsUnique now l u = retain-IsUnique (λ _ ts. keep_live l.window now ts) l.requests u

shrink_to_cap-IsUnique :
    (keep : List RateKey) (l : RateLimiter)
    → IsUnique l.requests
    → IsUnique (shrink_to_cap keep l).requests
unfolding shrink_to_cap
shrink_to_cap-IsUnique keep l u =
    if_both (λ (r : RateLimiter). IsUnique r.requests) (len l.requests - l.max_ips == 0) (λ _. u)
      (λ _. remove_all-IsUnique _ l.requests u)

pub maybe_sweep-IsUnique :
    (sweep : ℕ) (l : RateLimiter) → IsUnique l.requests → IsUnique (maybe_sweep sweep l).requests
unfolding maybe_sweep
maybe_sweep-IsUnique sweep l u =
    let counted = record l { hits = (l.hits + 1) % 2 ^ 64 } in
    let e = evict_expired-IsUnique sweep counted u in
    let s = shrink_to_cap-IsUnique [] (evict_expired sweep counted) e in ground (arith, e, s)

pub maybe_sweep_window : (sweep : ℕ) (l : RateLimiter) → (maybe_sweep sweep l).window ≡ l.window
unfolding maybe_sweep evict_expired shrink_to_cap
maybe_sweep_window sweep l = ground arith
