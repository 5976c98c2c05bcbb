-- ===== src/RateLimit/Cap.antt =====
-- After an allowed request of src/rate_limit.rs the map is within its cap, or holds no more than the
-- keys of this request.
use ferroada.Prelude.{
  ℕ, ◌+◌, ◌-◌, ◌≤◌, ◌<◌, ◌≡◌, max, List, [], ◌∷◌, length, arith, none, some, take, ap, length-take,
  All-take, if_both, refl, ◌==◌, true,
}
use ferroada.DashMap.{get, remove, len, retain}
use ferroada.DashMap.Laws.{IsUnique, AllValues, remove-IsUnique}
use ferroada.ClientIp.Identity.{RiskIdentity}
use ferroada.RateLimit.Key.{RateKey, key_eq, same_key_iff, keys_of}
use ferroada.RateLimit.Eviction.{
  Requests, evict_expired-IsUnique, sort_by_time-All, maybe_sweep-IsUnique,
}
use ferroada.RateLimit.Removal.{
  len-remove_all, IsIn, take-AreDistinct, sort_by_time-AreDistinct, candidates-AreDistinct,
  candidates-IsIn, length-sort_by_time,
}
use ferroada.RateLimit.{
  RateLimiter, candidates, contains, last, sort_by_time, shrink_to_cap, enforce_cap, evict_expired,
  keep_live, maybe_sweep, check, admit_keys,
}
use ferroada.RateLimit.Counting.{check_step, admit_keys-IsUnique}

abbrev IsFilled : List ℕ → Type 0
IsFilled q = 0 < length q

last-filled : (q : List ℕ) → IsFilled q → (t : ℕ) × (last q ≡ some t)
unfolding last
last-filled [] h = absurd (omega arith)
last-filled (t ∷ []) h = (t, refl)
last-filled (t ∷ u ∷ ts) h = last-filled (u ∷ ts) (omega arith)

candidates-absent :
    (k : RateKey) (keep : List RateKey) (m : Requests)
    → get m k ≡ none
    → candidates (k ∷ keep) m ≡ candidates keep m
unfolding candidates contains get
candidates-absent k keep [] g = refl
candidates-absent k keep ((j, v) ∷ m) g =
    ground (arith, candidates-absent k keep m, same_key_iff k j, same_key_iff j k)

-- A key more to keep is an entry less to choose from.
candidates-remove :
    (k : RateKey) (keep : List RateKey) (m : Requests)
    → IsUnique m
    → candidates (k ∷ keep) m ≡ candidates keep (remove m k)
unfolding candidates contains remove
candidates-remove k keep [] u = refl
candidates-remove k keep ((j, v) ∷ m) u = ground (
  arith,
  candidates-remove k keep m u.1,
  candidates-absent k keep m,
  same_key_iff k j,
  same_key_iff j k,
)

length-candidates_nil : (m : Requests) → AllValues IsFilled m → length (candidates [] m) ≡ len m
unfolding candidates contains
length-candidates_nil [] h = refl
length-candidates_nil ((j, v) ∷ m) h =
    let (t, filled) = last-filled v h.0 in ground (arith, filled, length-candidates_nil m h.1)

remove-AllValues :
    (k : RateKey) (m : Requests) → AllValues IsFilled m → AllValues IsFilled (remove m k)
unfolding remove
remove-AllValues k [] h = tt
remove-AllValues k ((j, v) ∷ m) h = ground (arith, h.0, h.1, remove-AllValues k m)

len-remove_pred : (k : RateKey) (m : Requests) → len m ≤ len (remove m k) + 1
unfolding remove
len-remove_pred k [] = omega arith
len-remove_pred k ((j, v) ∷ m) = ground (arith, len-remove_pred k m)

-- All but at most the kept keys can be removed.
len-candidates-le :
    (keep : List RateKey) (m : Requests)
    → IsUnique m
    → AllValues IsFilled m
    → len m ≤ length (candidates keep m) + length keep
len-candidates-le [] m u f = omega (arith, length-candidates_nil m f)
len-candidates-le (k ∷ keep) m u f =
    let rest =
      len-candidates-le keep (remove m k) (remove-IsUnique m k u) (remove-AllValues k m f) in
    omega (arith, rest, len-remove_pred k m, ap length (candidates-remove k keep m u))

shrink_to_cap-len :
    (keep : List RateKey) (l : RateLimiter)
    → IsUnique l.requests
    → AllValues IsFilled l.requests
    → len (shrink_to_cap keep l).requests ≤ max l.max_ips (length keep)
unfolding shrink_to_cap
shrink_to_cap-len keep l u f =
    let m = l.requests in
    let overflow = len m - l.max_ips in
    let cs = candidates keep m in
    let removed =
      len-remove_all (take overflow (sort_by_time cs)) m
        (take-AreDistinct overflow (sort_by_time cs)
          (sort_by_time-AreDistinct cs (candidates-AreDistinct keep m u)))
        (All-take (IsIn m) overflow (sort_by_time cs)
          (sort_by_time-All (IsIn m) cs (candidates-IsIn keep m))) in
    let taken = length-take overflow (sort_by_time cs) in
    let sorted = length-sort_by_time cs in
    let enough = len-candidates-le keep m u f in
    if_both (λ (r : RateLimiter). len r.requests ≤ max l.max_ips (length keep)) (overflow == 0)
      (λ none_over. ground (arith, none_over)) (λ _. omega (arith, removed, taken, sorted, enough))

retained :
    (window now : ℕ) (m : Requests)
    → AllValues IsFilled (retain (λ _ ts. keep_live window now ts) m)
unfolding retain keep_live
retained window now [] = tt
retained window now ((k, v) ∷ m) = ground (arith, retained window now m)

evict_expired_cap : (now : ℕ) (l : RateLimiter) → (evict_expired now l).max_ips ≡ l.max_ips
unfolding evict_expired
evict_expired_cap now l = refl

evict_expired-IsFilled :
    (now : ℕ) (l : RateLimiter) → AllValues IsFilled (evict_expired now l).requests
unfolding evict_expired
evict_expired-IsFilled now l = retained l.window now l.requests

enforce_cap-len :
    (cap : ℕ) (keep : List RateKey) (l : RateLimiter)
    → IsUnique l.requests
    → len (enforce_cap cap keep l).requests ≤ max l.max_ips (length keep)
unfolding enforce_cap
enforce_cap-len cap keep l u =
    let shrunk =
      shrink_to_cap-len keep (evict_expired cap l) (evict_expired-IsUnique cap l u)
        (evict_expired-IsFilled cap l) in
    let same = evict_expired_cap cap l in ground (arith, shrunk, same)

maybe_sweep_cap : (sweep : ℕ) (l : RateLimiter) → (maybe_sweep sweep l).max_ips ≡ l.max_ips
unfolding maybe_sweep evict_expired shrink_to_cap
maybe_sweep_cap sweep l = ground arith

-- An allowed request leaves a map within the cap, or one of no more keys than the request has: what
-- is above the cap is evicted, whatever the order of the map, except the keys of the request.
pub len-check :
    (sweep now cap : ℕ) (identity : RiskIdentity) (l : RateLimiter)
    → IsUnique l.requests
    → (check sweep now cap identity l).1 ≡ true
    → len (check sweep now cap identity l).0.requests ≤ max l.max_ips (length (keys_of identity))
len-check sweep now cap identity l u ok =
    let swept = maybe_sweep sweep l in
    let keys = keys_of identity in
    let tried = admit_keys swept.max_requests swept.window now keys swept.requests in
    let counted : RateLimiter = record swept { requests = tried.0 } in
    let (_, final) = check_step sweep now cap identity l ok in
    let unique =
      admit_keys-IsUnique swept.max_requests swept.window now keys swept.requests
        (maybe_sweep-IsUnique sweep l u) in
    let bound = enforce_cap-len cap keys counted unique in
    let same = maybe_sweep_cap sweep l in
    let ends = ap (λ (r : RateLimiter). len r.requests) final in omega (arith, bound, same, ends)
